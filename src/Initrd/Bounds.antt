-- ===== src/Initrd/Bounds.antt =====
-- The files that `parse_tar_image` remembers lie in the image, and their paths fit the entry.
use scdk.Base.{
  ℕ, suc, ◌+◌, ◌<◌, ◌≡◌, refl, subst, ltb, leb, ◌==◌, List, [], ◌∷◌, ◌++◌, length, length-append,
  inl, inr, arith, Bool-cases,
}
use scdk.Status.{Result, ok, err, ◌>>=◌}
use scdk.Initrd.{slash, max_path}
use scdk.Initrd.Archive.{
  append_component, separate, normalize_path, header_name, bounded_cstr, prefix_at, prefix_size,
}
use scdk.Initrd.Tree.{char_at}

-- A path in the making: `/` comes first, and it fits with its end mark.
pub record PathFits (path : List ℕ) : Type 0 where
  pub absolute : char_at path 0 ≡ slash
  pub short : length path < max_path

char_at-append : (a b : List ℕ) (c : ℕ) → char_at a 0 ≡ suc c → char_at (a ++ b) 0 ≡ suc c
char_at-append [] b c h = absurd (omega arith)
char_at-append (x ∷ a) b c h = h

append_component-PathFits :
    (out component path : List ℕ)
    → PathFits out
    → append_component max_path out component ≡ ok path
    → PathFits path
unfolding append_component
append_component-PathFits out component path f h = elim (Bool-cases (length component == 0)) [
  | inl empty ↦ let same : out ≡ path = ground arith in subst PathFits same f
  | inr more ↦ elim (Bool-cases (leb max_path (length out + length component))) [
    | inl long ↦ absurd (ground arith)
    | inr short ↦
        let same : out ++ component ≡ path = ground arith in
        subst PathFits same (record {
          absolute = char_at-append out component 46 f.absolute;
          short = let n = length-append out component in ground arith;
        })
  ]
]

separate-PathFits :
    (out path : List ℕ) → PathFits out → separate max_path out ≡ ok path → PathFits path
unfolding separate
separate-PathFits out path f h = elim (Bool-cases (ltb 1 (length out))) [
  | inr alone ↦ let same : out ≡ path = ground arith in subst PathFits same f
  | inl more ↦ elim (Bool-cases (leb max_path (length out + 1))) [
    | inl long ↦ absurd (ground arith)
    | inr short ↦
        let same : out ++ (slash ∷ []) ≡ path = ground arith in
        subst PathFits same (record {
          absolute = char_at-append out (slash ∷ []) 46 f.absolute;
          short = let n = length-append out (slash ∷ []) in ground arith;
        })
  ]
]

-- The part of a chain that comes first.
pub bind-eq-ok {ℓ κ} :
    {A : Type ℓ} {B : Type κ} (r : Result A) (f : A → Result B) {b : B}
    → (r >>= f) ≡ ok b
    → (a : A) × (r ≡ ok a) × (f a ≡ ok b)
bind-eq-ok (ok a) f h = (a, refl, h)
bind-eq-ok (err e) f h = absurd (ground arith)

pub normalize_path-PathFits :
    (mem : ℕ → ℕ) (header : ℕ) (path : List ℕ)
    → normalize_path mem header max_path ≡ ok path
    → PathFits path × (1 < length path)
unfolding normalize_path
normalize_path-PathFits mem header path h =
    let (prefixed, e1, h1) =
      bind-eq-ok
        (append_component max_path (slash ∷ []) (bounded_cstr mem (header + prefix_at) prefix_size))
        _ h in
    let (separated, e2, h2) = bind-eq-ok (separate max_path prefixed) _ h1 in
    let (joined, e3, h3) =
      bind-eq-ok (append_component max_path separated (header_name mem header)) _ h2 in
    let f1 =
      append_component-PathFits (slash ∷ []) (bounded_cstr mem (header + prefix_at) prefix_size)
        prefixed (record { absolute = refl; short = omega arith }) e1 in
    let f2 = separate-PathFits prefixed separated f1 e2 in
    let f3 = append_component-PathFits separated (header_name mem header) joined f2 e3 in
    elim (Bool-cases (leb (length joined) 1)) [
      | inl root ↦ absurd (ground arith)
      | inr named ↦
          let same : joined ≡ path = ground arith in
          subst (λ p. PathFits p × (1 < length p)) same (f3, ground arith)
    ]
