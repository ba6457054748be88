-- ===== src/Initrd/Agree.antt =====
-- `scdk_initrd_stat` and `scdk_initrd_find` see the same files.
use scdk.Base.{
  ℕ, zero, suc, ◌≤◌, ◌≡◌, ◌≢◌, refl, sym, ◌∙◌, ap, fun_ext, true, false, ◌==◌, List, [], ◌∷◌,
  length, inl, inr, arith, none, some, Option-cases, find_slot,
}
use scdk.Status.{ok, err, noent}
use scdk.Initrd.{Initrd, Entry, find, slash, str_eq}
use scdk.Initrd.Tree.{
  Stat, stat, strip, query_len, take, char_at, path_eq_len, path_has_dir_prefix, node_file,
  node_dir,
}

-- A path is compared with the query's first characters as a string with a string.
path_eq_len-take :
    (n : ℕ) (path query : List ℕ)
    → n ≤ length query
    → path_eq_len path query n ≡ str_eq (take n query) path
path_eq_len-take zero [] query le = refl
path_eq_len-take zero (x ∷ path) query le = ground arith
path_eq_len-take (suc n) path [] le = absurd (omega arith)
path_eq_len-take (suc n) [] (y ∷ query) le = ground arith
path_eq_len-take (suc n) (x ∷ path) (y ∷ query) le =
    let same = path_eq_len-take n path query (omega arith) in ground arith

strip-le : (n : ℕ) (s : List ℕ) → strip n s ≤ n
unfolding strip
strip-le zero s = omega arith
strip-le (suc n) s = let le = strip-le n s in ground arith

query_len-le : (path : List ℕ) → query_len path ≤ length path
unfolding query_len
query_len-le path = strip-le (length path) path

ok-injective : {a b : Entry} → ok a ≡ ok b → a ≡ b
ok-injective h = ground arith

module _ (t : Initrd) (path : List ℕ) (started : t.initialized ≡ true)
    (absolute : char_at path 0 ≡ slash) (named : query_len path ≢ 1) where
  -- The two loops look for the same file.
  same_file :
      find_slot (λ i. path_eq_len (t.files i).path path (query_len path)) t.count 0
      ≡ find_slot (λ i. str_eq (take (query_len path) path) (t.files i).path) t.count 0
  same_file =
      ap (λ f. find_slot f t.count 0)
        (fun_ext λ i. path_eq_len-take (query_len path) (t.files i).path path (query_len-le path))

  module _ (i : ℕ)
      (e : find_slot (λ i. str_eq (take (query_len path) path) (t.files i).path) t.count 0
        ≡ some i) where
    find-some : find t (take (query_len path) path) true ≡ ok (t.files i)
    unfolding find
    find-some = rw (started, e) refl

    stat-some : stat t path true ≡ ok (record { type = node_file; size = (t.files i).size })
    unfolding stat
    stat-some =
        let root : (query_len path == 1) ≡ false = ground arith in
        rw (started, absolute, root, same_file, e) refl

  module _
      (e : find_slot (λ i. str_eq (take (query_len path) path) (t.files i).path) t.count 0
        ≡ none) where
    find-none : find t (take (query_len path) path) true ≡ err noent
    unfolding find
    find-none = rw (started, e) refl

    stat-none : (s : Stat) → stat t path true ≡ ok s → s.type ≡ node_dir
    unfolding stat
    stat-none s h =
        let root : (query_len path == 1) ≡ false = ground arith in
        elim (Option-cases
          (find_slot (λ i. path_has_dir_prefix (t.files i).path path (query_len path)) t.count 0)) [
            | inl none_below ↦
                let r : stat t path true ≡ err noent =
                  rw (started, absolute, root, same_file, e, none_below) refl in
                absurd (ground arith)
            | inr (i, below) ↦
                let r : stat t path true ≡ ok (record { type = node_dir; size = 0 }) =
                  rw (started, absolute, root, same_file, e, below) refl in
                ground arith
          ]

  -- Of an absolute path that is not the root's, `scdk_initrd_stat` reports a file exactly when
  -- `scdk_initrd_find` of the path less the slashes at its end finds one, and it reports that
  -- file's size.
  pub stat-find :
      ((e : Entry)
        → find t (take (query_len path) path) true ≡ ok e
        → stat t path true ≡ ok (record { type = node_file; size = e.size }))
      × ((s : Stat)
          → stat t path true ≡ ok s
          → s.type ≡ node_file
          → (e : Entry) × (find t (take (query_len path) path) true ≡ ok e) × (e.size ≡ s.size))
  stat-find =
      elim (Option-cases
        (find_slot (λ i. str_eq (take (query_len path) path) (t.files i).path) t.count 0)) [
          | inl e ↦ (
            λ f h. let r = find-none e in absurd (ground arith),
            λ s h file. let r = stat-none e s h in absurd (omega arith),
          )
          | inr (i, e) ↦ (
            λ f h.
                let same : t.files i ≡ f = ok-injective (sym (find-some i e) ∙ h) in
                stat-some i e
                ∙ ap (λ (x : Entry). ok (record { type = node_file; size = x.size })) same,
            λ s h file. (t.files i, find-some i e, let r = stat-some i e in ground arith),
          )
        ]
