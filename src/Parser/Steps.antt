-- ===== src/Parser/Steps.antt =====
-- The reading of an operator on a known text.
use dq_lang.ConstInt.Fold.{BinOp}
use dq_lang.Feeder.State.{Feeder, unread}
use dq_lang.Feeder.Scan.{starts_with}
use dq_lang.Feeder.Tokens.{check_symbol, is_identifier_char, check_keyword}
use dq_lang.Parser.Levels.{Ops, any_symbol, is_word, check_op, find_op}
use dq_lang.Parser.Print.{no_op, no_symbol}
use dq_lang.Prelude.{
  ◌+◌, ◌-◌, ◌≡◌, refl, sym, ap, ◌∙◌, ◌⊎◌, inl, inr, Bool, true, false, ◌&&◌, ◌||◌, none, some, List,
  [], ◌∷◌, ◌++◌, arith, ltb, ==_refl, Bool-cases, length, get_or, drop, drop-append, drop-drop,
  Bytes,
}

-- What a reading step gives: the state, with this text in front, and its result.
abbrev pub Reads {ℓ} : {A : Type ℓ} → Feeder × A → A → Bytes → Type ℓ
Reads r a text = (r.1 ≡ a) × (unread r.0 ≡ text)

starts_with_append : (s rest : Bytes) → starts_with s (s ++ rest) ≡ true
unfolding starts_with
starts_with_append [] rest = refl
starts_with_append (c ∷ cs) rest = rw (==_refl c, starts_with_append cs rest) refl

after_drop :
    (s rest : Bytes) (f : Feeder)
    → unread f ≡ s ++ rest
    → drop (f.curp + length s) f.file.body ≡ rest
after_drop s rest f h =
    sym (drop-drop f.curp (length s) f.file.body) ∙ ap (drop (length s)) h ∙ drop-append s rest

pub check_symbol-hit :
    (s rest : Bytes) (f : Feeder) → unread f ≡ s ++ rest → Reads (check_symbol s true f) true rest
unfolding check_symbol
check_symbol-hit s rest f h =
    let hit : starts_with s (unread f) ≡ true = rw h (starts_with_append s rest) in
    rw hit (refl, after_drop s rest f h)

pub check_symbol-look :
    (s rest : Bytes) (f : Feeder)
    → unread f ≡ s ++ rest
    → Reads (check_symbol s false f) true (s ++ rest)
unfolding check_symbol
check_symbol-look s rest f h =
    let hit : starts_with s (unread f) ≡ true = rw h (starts_with_append s rest) in rw hit (refl, h)

pub check_symbol-miss :
    (s text : Bytes) (consume : Bool) (f : Feeder)
    → unread f ≡ text
    → starts_with s text ≡ false
    → Reads (check_symbol s consume f) false text
unfolding check_symbol
check_symbol-miss s text consume f h miss =
    let missed : starts_with s (unread f) ≡ false = rw h miss in rw missed (refl, h)

check_keyword-miss :
    (s text : Bytes) (f : Feeder)
    → unread f ≡ text
    → starts_with s text ≡ false
    → Reads (check_keyword s true f) false text
unfolding check_keyword
check_keyword-miss s text f h miss =
    let (missed, same) = check_symbol-miss s text true f h miss in
    elim (Bool-cases (
      ltb 0 f.curp && is_identifier_char (get_or f.file.body (f.curp - 1) 0)
      || ltb (length s) (length (unread f))
        && is_identifier_char (get_or (unread f) (length s) 0))) [
          | inl e ↦ rw e (refl, h)
          | inr e ↦ rw e (missed, same)
        ]

pub any_symbol-miss :
    (ss : List Bytes) (text : Bytes) (f : Feeder)
    → unread f ≡ text
    → no_symbol ss text ≡ true
    → Reads (any_symbol ss f) false text
unfolding any_symbol no_symbol
any_symbol-miss [] text f h miss = (refl, h)
any_symbol-miss (s ∷ ss) text f h miss =
    let here : starts_with s text ≡ false = ground arith in
    let (missed, same) = check_symbol-miss s text false f h here in
    rw missed (any_symbol-miss ss text (check_symbol s false f).0 same (ground arith))

check_op-miss :
    (s text : Bytes) (f : Feeder)
    → unread f ≡ text
    → starts_with s text ≡ false
    → Reads (check_op s f) false text
check_op-miss s text f h miss = elim (Bool-cases (is_word s)) [
  | inl e ↦ rw e (check_keyword-miss s text f h miss)
  | inr e ↦ rw e (check_symbol-miss s text true f h miss)
]

pub find_op-miss :
    (ops : Ops) (text : Bytes) (f : Feeder)
    → unread f ≡ text
    → no_op ops text ≡ true
    → Reads (find_op ops f) none text
unfolding find_op no_op
find_op-miss [] text f h miss = (refl, h)
find_op-miss ((s, op) ∷ ops) text f h miss =
    let here : starts_with s text ≡ false = ground arith in
    let (missed, same) = check_op-miss s text f h here in
    rw missed (find_op-miss ops text (check_op s f).0 same (ground arith))

-- The operator stands in the list behind others that do not stand in the text.
unfoldable pub Finds : Ops → Bytes → BinOp → Bytes → Type 0
Finds [] text op rest = ⊥
Finds ((s, o) ∷ ops) text op rest =
    ((is_word s ≡ false) × (text ≡ s ++ rest) × (o ≡ op))
    ⊎ ((starts_with s text ≡ false) × Finds ops text op rest)

pub find_op-hit :
    (ops : Ops) (text : Bytes) (op : BinOp) (rest : Bytes) (f : Feeder)
    → unread f ≡ text
    → Finds ops text op rest
    → Reads (find_op ops f) (some op) rest
unfolding find_op Finds
find_op-hit [] text op rest f h e = absurd e
find_op-hit ((s, o) ∷ ops) text op rest f h (inl (word, split, same)) =
    let (hit, left) = check_symbol-hit s rest f (h ∙ split) in rw (word, hit) (ap some same, left)
find_op-hit ((s, o) ∷ ops) text op rest f h (inr (here, later)) =
    let (missed, same) = check_op-miss s text f h here in
    rw missed (find_op-hit ops text op rest (check_op s f).0 same later)
