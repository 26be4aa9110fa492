-- ===== src/Client/Outgoing/Paths.antt =====
-- internal/client/client.go: where a received file is put.
use road.Base.{
  arith, ◌≡◌, ◌≢◌, refl, [], ◌∷◌, ◌++◌, some, true, false, Bytes, codes, bytes_eq, bytes_eq_iff,
  All, All-reverse, reverse, ◌⊎◌, inl, inr, Bool-cases,
}
use road.Client.Outgoing.{
  base, is_slash, to_slash, drop_slashes, get_save_path, safe_name, is_unusable,
}

-- A name in the directory itself.
pub IsName : Bytes → Type 0
IsName = All (λ c. is_slash c ≡ false)

to_slash-IsName : (cs : Bytes) → IsName (to_slash cs)
unfolding to_slash IsName
to_slash-IsName [] = tt
to_slash-IsName (c ∷ cs) = elim (Bool-cases (is_slash c)) [
  | inl e ↦ rw e tt
  | inr e ↦ rw e (e, to_slash-IsName cs)
]

-- The last element of a path is a name, unless the path is made of slashes only.
base-IsName : (path : Bytes) → (base path ≡ codes "/") ⊎ IsName (base path)
unfolding base IsName
base-IsName [] = inr (refl, tt)
base-IsName (c ∷ cs) =
    let last = reverse (to_slash (drop_slashes (reverse (c ∷ cs)))) in
    elim (Bool-cases (bytes_eq last [])) [
      | inl e ↦ inl (rw e refl)
      | inr e ↦ inr (
          rw e (
            All-reverse (λ c. is_slash c ≡ false) _
              (unfold IsName in to_slash-IsName (drop_slashes (reverse (c ∷ cs))))))
    ]

safe_name-IsName :
    (name : Bytes)
    → (name ≡ codes "/") ⊎ IsName name
    → IsName (safe_name name) × (safe_name name ≢ codes ".") × (safe_name name ≢ [])
unfolding safe_name IsName is_unusable
safe_name-IsName name h = elim (Bool-cases (is_unusable name)) [
  | inl e ↦ rw (safe_name, e) ((ground arith), (λ f. cc f), (λ f. cc f))
  | inr e ↦
      let slash : is_unusable (codes "/") ≡ true = refl in
      let dot : is_unusable (codes ".") ≡ true = refl in
      let empty : is_unusable [] ≡ true = refl in
      rw (safe_name, e)
        (
          elim h [ inl f ↦ absurd (cc (f, slash, e)) | inr n ↦ n ],
          (λ f. cc (f, dot, e)),
          (λ f. cc (f, empty, e)),
        )
]

parent_name : (name : Bytes) → safe_name name ≡ codes ".." → name ≡ codes ".."
unfolding safe_name
parent_name name h = elim (Bool-cases (is_unusable name)) [
  | inl e ↦ absurd (let f = rw (safe_name, e) at h in cc)
  | inr e ↦ rw (safe_name, e) at h
]

-- Where a file goes under the name that the peer gives it, with the home and the directory there: to
-- a name in the directory, with no slash and neither empty nor "." nor ".."; or, when the name's last
-- element is "..", to the parent of the directory.
pub get_save_path_cases :
    (home filename : Bytes)
    → ((base filename ≡ codes "..")
        × (get_save_path (some home) true filename ≡ some (home ++ codes "/Downloads")))
      ⊎ ((name : Bytes) × (get_save_path (some home) true filename
            ≡ some (home ++ (codes "/Downloads/road-1337/" ++ name)))
          × IsName name
          × (name ≢ codes "..")
          × (name ≢ codes ".")
          × (name ≢ []))
unfolding get_save_path
get_save_path_cases home filename =
    let name = safe_name (base filename) in
    let (plain, not_dot, not_empty) = safe_name-IsName (base filename) (base-IsName filename) in
    elim (Bool-cases (bytes_eq name (codes ".."))) [
      | inl e ↦ inl (parent_name (base filename) ((bytes_eq_iff name (codes "..")).0 e), rw e refl)
      | inr e ↦ inr (
        name,
        rw e refl,
        plain,
        (λ f. cc (e, (bytes_eq_iff name (codes "..")).1 f)),
        not_dot,
        not_empty,
      )
    ]
