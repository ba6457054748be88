-- ===== src/Ring/Window.antt =====
-- Storage seen as the queue of the elements between two counters.
use scdk.Base.{
  ℕ, zero, suc, ◌+◌, ◌%◌, ◌<◌, ◌≡◌, ◌≢◌, refl, sym, ◌∙◌, ap, subst, List, [], ◌∷◌, ◌++◌, length,
  arith, update, update_self, update_ne,
}
use mathlib.Core.Path.{ap₂}
use native.Mathlib.Nat.{mod-add-mod}

-- Fewer than `e` steps on do not come back to the same index.
add-mod-ne : (h m e : ℕ) → 0 < m → m < e → (h + m) % e ≢ h % e
add-mod-ne h m e pos lt = grind arith

mod-suc_cong : (h h' e : ℕ) → h % e ≡ h' % e → (h + 1) % e ≡ (h' + 1) % e
mod-suc_cong h h' e same = sym (mod-add-mod h e 1) ∙ ap (λ r. (r + 1) % e) same ∙ mod-add-mod h' e 1

module _ {ℓ} {A : Type ℓ} where
  -- The `n` elements from counter `h` on.
  abbrev pub window : (ℕ → A) → ℕ → ℕ → ℕ → List A
  window f e h zero = []
  window f e h (suc n) = f (h % e) ∷ window f e (h + 1) n

  pub length-window : (f : ℕ → A) (e h n : ℕ) → length (window f e h n) ≡ n
  length-window f e h zero = refl
  length-window f e h (suc n) = ap suc (length-window f e (h + 1) n)

  -- Only the indices matter.
  pub window-cong : (f : ℕ → A) (e h h' n : ℕ) → h % e ≡ h' % e → window f e h n ≡ window f e h' n
  window-cong f e h h' zero same = refl
  window-cong f e h h' (suc n) same =
      ap₂ ◌∷◌ (ap f same) (window-cong f e (h + 1) (h' + 1) n (mod-suc_cong h h' e same))

  -- A write just past a window extends it.
  pub window-update :
      (f : ℕ → A) (e h n : ℕ) (x : A)
      → n < e
      → window (update f ((h + n) % e) x) e h (suc n) ≡ window f e h n ++ (x ∷ [])
  window-update f e h zero x lt =
      let at : (h + 0) % e ≡ h % e = ap (λ m. m % e) (omega arith) in
      rw (at, update_self f (h % e) x) refl
  window-update f e h (suc n) x lt =
      let at : (h + suc n) % e ≡ (h + 1 + n) % e = ap (λ m. m % e) (omega arith) in
      ap₂ ◌∷◌ (update_ne f ((h + suc n) % e) (h % e) x (add-mod-ne h (suc n) e (omega arith) lt)) (
        subst (λ j. window (update f j x) e (h + 1) (suc n) ≡ window f e (h + 1) n ++ (x ∷ []))
          (sym at) (window-update f e (h + 1) n x (omega arith)))
