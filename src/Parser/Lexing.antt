-- ===== src/Parser/Lexing.antt =====
-- What stands behind an operand, and the rest of the compiler that the levels rely on.
use dq_lang.Feeder.State.{Feeder, is_eol, unread}
use dq_lang.Feeder.Scan.{is_blank, starts_with}
use dq_lang.Feeder.Tokens.{is_letter}
use dq_lang.Parser.Levels.{Front, terminators}
use dq_lang.Parser.Print.{
  Sym, sym_text, sym_op, rank, ops_at, no_op, no_symbol, no_terminator, no_op-other, no_op-close,
  plus, minus, times, slash, bar, amp, shl, shr, Cmp, cmp_text, no_op-comparison,
  no_terminator-comparison, eq, ne, lt, le, gt, ge,
}
use dq_lang.Parser.Steps.{Finds}
use dq_lang.Prelude.{
  ℕ, suc, ◌≤◌, ◌≡◌, refl, ◌⊎◌, inl, inr, Bool, true, false, not, ◌&&◌, ◌||◌, some, [], ◌∷◌, ◌++◌,
  arith, ◌==◌, codes, Bytes,
}

-- A text that begins with a token: no blank, line end, directive or comment.
unfoldable pub solid : Bytes → Bool
unfolding starts_with
solid [] = false
solid (c ∷ cs) =
    not (is_blank c)
    && not (is_eol c)
    && not (c == b'#')
    && not (c == b'/' && (starts_with (codes "/") cs || starts_with (codes "*") cs))

-- A text is in front, perhaps behind a blank.
abbrev pub Sees : Feeder → Bytes → Type 0
Sees f text = (unread f ≡ text) ⊎ (unread f ≡ 32 ∷ text)

-- The end of a sum: a `;` or a comparison.
abbrev pub Ends : Bytes → Type 0
Ends tail =
    ((more : Bytes) × (tail ≡ b';' ∷ more))
    ⊎ ((o : Cmp) × (more : Bytes) × (tail ≡ cmp_text o ++ 32 ∷ more))

-- What may stand behind an expression with operators of at most a rank: the end of a sum, or an
-- operator of a rank from a bound on.
abbrev pub Follows : ℕ → Bytes → Type 0
Follows j tail =
    Ends tail ⊎ ((o : Sym) × (more : Bytes) × (tail ≡ sym_text o ++ 32 ∷ more) × (j ≤ rank o))

pub Follows-weaken : (i j : ℕ) (tail : Bytes) → i ≤ j → Follows j tail → Follows i tail
Follows-weaken i j tail h (inl e) = inl e
Follows-weaken i j tail h (inr (o, more, e, k)) = inr (o, more, e, omega arith)

-- What the parser relies on: white space is skipped in front of a token, the end of the text is not
-- reported where text follows, and an operand in front of an operator, a comparison or a `;` is read,
-- perhaps with the blank behind it.
pub record Lexes {E : Type 0} (front : Front E) (name : ℕ → Bytes) (value : ℕ → E) : Type 0 where
  pub skips :
      (b : Bool) (f : Feeder) (text : Bytes)
      → Sees f text
      → solid text ≡ true
      → unread (front.skip_white b f) ≡ text
  pub goes_on : (f : Feeder) (c : ℕ) (text : Bytes) → unread f ≡ c ∷ text → front.eof f ≡ false
  pub operands :
      (x : ℕ) (f : Feeder) (tail : Bytes)
      → unread f ≡ name x ++ 32 ∷ tail
      → Follows 0 tail
      → ((front.parse_postfix f).1 ≡ some (value x)) × Sees (front.parse_postfix f).0 tail
  pub letters : (x : ℕ) → (c : ℕ) × (cs : Bytes) × (name x ≡ c ∷ cs) × (is_letter c ≡ true)

pub sym_solid : (o : Sym) (more : Bytes) → solid (sym_text o ++ 32 ∷ more) ≡ true
unfolding solid starts_with
sym_solid plus more = refl
sym_solid minus more = refl
sym_solid times more = refl
sym_solid slash more = refl
sym_solid bar more = refl
sym_solid amp more = refl
sym_solid shl more = refl
sym_solid shr more = refl

pub cmp_solid : (o : Cmp) (more : Bytes) → solid (cmp_text o ++ 32 ∷ more) ≡ true
unfolding solid starts_with
cmp_solid eq more = refl
cmp_solid ne more = refl
cmp_solid lt more = refl
cmp_solid le more = refl
cmp_solid gt more = refl
cmp_solid ge more = refl

pub Follows-solid : (j : ℕ) (tail : Bytes) → Follows j tail → solid tail ≡ true
Follows-solid j tail (inl (inl (more, e))) = rw e (unfold solid in refl)
Follows-solid j tail (inl (inr (o, more, e))) = rw e (cmp_solid o more)
Follows-solid j tail (inr (o, more, e, k)) = rw e (sym_solid o more)

pub Follows-no_terminator :
    (j : ℕ) (tail : Bytes) → Follows j tail → no_symbol terminators tail ≡ true
Follows-no_terminator j tail (inl (inl (more, e))) =
    rw e (unfold no_symbol in unfold starts_with in refl)
Follows-no_terminator j tail (inl (inr (o, more, e))) = rw e (no_terminator-comparison o more)
Follows-no_terminator j tail (inr (o, more, e, k)) = rw e (no_terminator o more)

pub Follows-no_op : (j : ℕ) (tail : Bytes) → Follows (suc j) tail → no_op (ops_at j) tail ≡ true
Follows-no_op j tail (inl (inl (more, e))) = rw e (no_op-close more j)
Follows-no_op j tail (inl (inr (o, more, e))) = rw e (no_op-comparison o more j)
Follows-no_op j tail (inr (o, more, e, k)) = rw e (no_op-other o more j (omega arith))

pub sym-Finds :
    (o : Sym) (more : Bytes)
    → Finds (ops_at (rank o)) (sym_text o ++ 32 ∷ more) (sym_op o) (32 ∷ more)
unfolding Finds ops_at starts_with is_letter
sym-Finds plus more = inl (refl, refl, refl)
sym-Finds minus more = inr (refl, inl (refl, refl, refl))
sym-Finds times more = inl (refl, refl, refl)
sym-Finds slash more = inl (refl, refl, refl)
sym-Finds bar more = inl (refl, refl, refl)
sym-Finds amp more = inl (refl, refl, refl)
sym-Finds shl more = inl (refl, refl, refl)
sym-Finds shr more = inr (refl, inl (refl, refl, refl))
