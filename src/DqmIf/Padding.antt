-- ===== src/DqmIf/Padding.antt =====
-- The padding loop of AddRec and the alignment loop of NextRec agree.
use dq_lang.DqmIf.Reader.{align, align_loop}
use dq_lang.DqmIf.Writer.{pad, pad_loop}
use dq_lang.Prelude.{
  ℕ, zero, suc, ◌+◌, ◌%◌, ◌≤◌, ◌<◌, ◌≡◌, refl, sym, ◌∙◌, ap, inl, inr, [], ◌∷◌, ◌++◌, append_assoc,
  append-nil, arith, Bytes, length, length-append, ◌==◌, Bool-cases,
}

-- Three rounds reach a multiple of four.
pub align_lem : (n : ℕ) → (align n % 4 ≡ 0) × (n ≤ align n) × (align n < n + 4)
unfolding align
align_lem n = ground arith

-- The zeros that a pad loop adds.
pub pad_loop_lem :
    (f : ℕ) (p : Bytes)
    → (zeros : Bytes) × (pad_loop f p ≡ p ++ zeros)
      × (length (pad_loop f p) ≡ align_loop f (length p))
unfolding pad_loop align_loop
pad_loop_lem zero p = ([], sym (append-nil p), refl)
pad_loop_lem (suc f) p = elim (Bool-cases (length p % 4 == 0)) [
  | inl done ↦ ([], rw done (sym (append-nil p)), rw done refl)
  | inr more ↦
      let (zeros, e, l) = pad_loop_lem f (p ++ 0 ∷ []) in
      let one : length (p ++ 0 ∷ []) ≡ length p + 1 = length-append p (0 ∷ []) in
      (0 ∷ zeros, rw more (e ∙ append_assoc p (0 ∷ []) zeros), rw more (l ∙ ap (align_loop f) one))
]

pub pad_lem :
    (p : Bytes) → (zeros : Bytes) × (pad p ≡ p ++ zeros) × (length (pad p) ≡ align (length p))
unfolding pad align
pad_lem p = pad_loop_lem 3 p
