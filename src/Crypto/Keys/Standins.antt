-- ===== src/Crypto/Keys/Standins.antt =====
-- Small values of the interfaces of the key store, for concrete runs.
use road.Base.{
  ◌==◌, ℕ, ◌+◌, ◌≡◌, refl, ap, [], ◌∷◌, ◌++◌, Option, none, some, Bool, true, false, Bytes, IsBytes,
  IsByte, length, take, drop, get_or, replicate, length-replicate, take_append, drop_append,
  All-replicate, All-append, arith,
}
use road.Crypto.Cipher.{Random}
use road.Crypto.Keys.{Curve, derive_disk_key}
use road.Crypto.Keys.Disk.{Json, DiskConfig}
use road.Crypto.Keys.Store.Stored.{GivesBytes}
use road.Crypto.Standins.{clear_aead, clear_seal, tag}

pub toy_comm :
    (a b : ℕ) → ◌≡◌ {A = Option Bytes} (some (replicate 32 (a + b))) (some (replicate 32 (b + a)))
toy_comm a b = let e : a + b ≡ b + a = omega arith in ap (λ n. some (replicate 32 n)) e

-- The public key is the first byte of the private key, 32 times; a shared secret adds two of them.
abbrev pub toy_curve : Curve
toy_curve = record {
  public_key = λ raw. replicate 32 (get_or raw 0 0);
  shared = λ raw theirs. some (replicate 32 (get_or raw 0 0 + get_or theirs 0 0));
  hkdf = λ secret info n. replicate n (get_or secret 0 0);
  argon2 = λ pass salt time memory threads n. replicate n 9;
  length-public_key = λ raw. length-replicate 32 (get_or raw 0 0);
  shared_comm = λ a b ha hb. toy_comm (get_or a 0 0) (get_or b 0 0);
  length-hkdf = λ secret info n h. length-replicate n (get_or secret 0 0);
  length-argon2 = λ pass salt time memory threads n h k. length-replicate n 9;
}

pub sevens_length :
    (s n : ℕ) (bs : Bytes) → ◌≡◌ {A = Option Bytes} (some (replicate n 7)) (some bs) → length bs ≡ n
sevens_length s n bs e = let f : replicate n 7 ≡ bs = cc in rw (← f) (length-replicate n 7)

-- Always gives sevens, and counts the reads.
abbrev pub sevens : Random
sevens = record {
  Source = ℕ;
  read_full = λ s n. (some (replicate n 7), s + 1);
  length-read_full = sevens_length;
}

unfoldable pub flag_of : Bool → ℕ
flag_of true = 1
flag_of false = 0

flag_of_lem : (b : Bool) → (flag_of b == 1) ≡ b
unfolding flag_of
flag_of_lem true = refl
flag_of_lem false = refl

unfoldable pub toy_print : DiskConfig → Bytes
unfolding flag_of
toy_print c =
    length c.salt ∷ flag_of c.seen_manual ∷ length c.nonce ∷ (c.salt ++ (c.nonce ++ c.ciphertext))

unfoldable pub toy_parse : Bytes → Option DiskConfig
toy_parse (n ∷ flag ∷ m ∷ text) = some (record {
  salt = take n text;
  nonce = take m (drop n text);
  ciphertext = drop m (drop n text);
  seen_manual = flag == 1;
})
toy_parse _ = none

pub toy_parse-toy_print : (c : DiskConfig) → toy_parse (toy_print c) ≡ some c
unfolding toy_print toy_parse
toy_parse-toy_print c =
    let d = drop_append c.salt (c.nonce ++ c.ciphertext) (length c.salt) refl in
    rw
      (
        take_append c.salt (c.nonce ++ c.ciphertext) (length c.salt) refl,
        d,
        take_append c.nonce c.ciphertext (length c.nonce) refl,
        drop_append c.nonce c.ciphertext (length c.nonce) refl,
        flag_of_lem c.seen_manual,
      )
      refl

abbrev pub toy_json : Json
toy_json = record {
  print = toy_print;
  parse = toy_parse;
  parse-print = λ cfg h. toy_parse-toy_print cfg;
  parse-print_again = λ text cfg seen h. toy_parse-toy_print (record cfg { seen_manual = seen });
}

tag-IsBytes : (k : Bytes) → IsBytes k → IsBytes (tag k)
unfolding tag
tag-IsBytes [] h = All-replicate IsByte 16 0 (omega arith)
tag-IsBytes (b ∷ k) h = All-replicate IsByte 16 b h.0

clear_seal-IsBytes : (k n t : Bytes) → IsBytes k → IsBytes t → IsBytes (clear_seal k n t)
unfolding clear_seal
clear_seal-IsBytes k n t hk ht = All-append IsByte t (tag k) ht (tag-IsBytes k hk)

sevens-IsBytes :
    (n : ℕ) (bs : Bytes) → ◌≡◌ {A = Option Bytes} (some (replicate n 7)) (some bs) → IsBytes bs
sevens-IsBytes n bs e =
    let f : replicate n 7 ≡ bs = cc in rw (← f) (All-replicate IsByte n 7 (omega arith))

pub toy-GivesBytes : GivesBytes toy_curve clear_aead sevens
unfolding derive_disk_key
toy-GivesBytes = record {
  key = λ passphrase salt. All-replicate IsByte 32 9 (omega arith);
  sealed = clear_seal-IsBytes;
  random = λ s n bs e. sevens-IsBytes n bs e;
}
