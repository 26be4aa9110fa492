-- ===== src/Command/Target.antt =====
-- cmd/road-1337/main.go: the target of a chat, [IP]:[PORT]@[PUBLIC_KEY].
use road.Base.{
  ℕ, ◌≡◌, refl, [], ◌∷◌, ◌++◌, some, true, false, ◌==◌, ==_refl, Bytes, codes, bytes_eq,
  bytes_eq_iff, Bool-cases, inl, inr,
}
use road.Command.{Host, World, Outcomes, contains, split_at, run, cmd_client, other_command}

contains-append : (c : ℕ) (front back : Bytes) → contains c (front ++ c ∷ back) ≡ true
contains-append c [] back = rw (==_refl c) refl
contains-append c (b ∷ front) back = elim (Bool-cases (b == c)) [
  | inl e ↦ rw e refl
  | inr e ↦ rw e (contains-append c front back)
]

-- The first separator splits the target.
pub split_at-append :
    (c : ℕ) (front back : Bytes)
    → contains c front ≡ false
    → split_at c (front ++ c ∷ back) ≡ some (front, back)
unfolding split_at
split_at-append c [] back h = rw (==_refl c) refl
split_at-append c (b ∷ front) back h = elim (Bool-cases (b == c)) [
  | inl e ↦ absurd (let f = rw e at h in cc)
  | inr e ↦
      let k : contains c front ≡ false = rw e at h in rw (e, split_at-append c front back k) refl
]

-- A text with a separator is no text without one.
bytes_eq-contains :
    (c : ℕ) (text word : Bytes)
    → contains c text ≡ true
    → contains c word ≡ false
    → bytes_eq text word ≡ false
bytes_eq-contains c text word h k = elim (Bool-cases (bytes_eq text word)) [
  | inl e ↦ absurd (let same = (bytes_eq_iff text word).0 e in let f = rw same at h in cc)
  | inr e ↦ e
]

-- An argument with an "@" is no command's name, so it starts a chat.
pub run-target :
    (h : Host) (w : World h) (exe addr peer_key : Bytes) (o : Outcomes)
    → run h w (exe ∷ (addr ++ 64 ∷ peer_key) ∷ []) o ≡ cmd_client h w (addr ++ 64 ∷ peer_key)
unfolding run other_command
run-target h w exe addr peer_key o =
    let target = addr ++ 64 ∷ peer_key in
    let at = contains-append 64 addr peer_key in
    let ne =
      λ (word : Bytes) (k : contains 64 word ≡ false). bytes_eq-contains 64 target word at k in
    rw
      (
        ne (codes "generate-keychain") refl,
        ne (codes "restore-key") refl,
        ne (codes "server") refl,
        ne (codes "tui") refl,
        ne (codes "test") refl,
        ne (codes "version") refl,
        ne (codes "--version") refl,
        ne (codes "help") refl,
        ne (codes "--help") refl,
        ne (codes "-h") refl,
        at,
      )
      refl
