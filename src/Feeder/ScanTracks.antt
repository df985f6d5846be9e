-- ===== src/Feeder/ScanTracks.antt =====
-- The searching operations keep the line and the column right.
use dq_lang.Feeder.Scan.{
  is_blank, skip_spaces_loop, skip_spaces, has_char, read_to_loop, read_to, read_to_char,
  starts_with, search_loop, search_pattern, found_pattern,
}
use dq_lang.Feeder.State.{
  Feeder, Cursor, newline, is_eol, advance, unread, cursor, place, recalc_loop,
}
use dq_lang.Feeder.Tracking.{
  Tracks, Passes, place-Tracks, recalc_loop-append, recalc_loop_same_line, Tracks-same_place,
}
use dq_lang.Prelude.{
  ℕ, ◌+◌, ◌≡◌, ◌≢◌, refl, sym, ◌∙◌, ap, inl, inr, Bool, true, false, ◌&&◌, ◌||◌, Option, none, some,
  [], ◌∷◌, ◌++◌, append_assoc, arith, Bytes, length, All, Bool-cases,
}

Passes-here : (text : Bytes) (k : Cursor) → Passes text k k
unfolding recalc_loop
Passes-here text k = record { over = []; left = text; splits = refl; ends = refl }

Passes-step :
    (c : ℕ) (cs : Bytes) (k : Cursor) {k' : Cursor}
    → Passes cs (advance c k) k'
    → Passes (c ∷ cs) k k'
unfolding recalc_loop
Passes-step c cs k s = record {
  over = c ∷ s.over;
  left = s.left;
  splits = ap (◌∷◌ c) s.splits;
  ends = s.ends;
}

skip_spaces_loop-Passes :
    (skip_eol : Bool) (text : Bytes) (k : Cursor) → Passes text k (skip_spaces_loop skip_eol text k)
unfolding skip_spaces_loop
skip_spaces_loop-Passes skip_eol [] k = Passes-here [] k
skip_spaces_loop-Passes skip_eol (c ∷ cs) k =
    elim (Bool-cases (is_blank c || skip_eol && is_eol c)) [
      | inl e ↦ rw e (Passes-step c cs k (skip_spaces_loop-Passes skip_eol cs (advance c k)))
      | inr e ↦ rw e (Passes-here (c ∷ cs) k)
    ]

read_to_loop-Passes :
    (chars text : Bytes) (k : Cursor) → Passes text k (read_to_loop chars text k).0
unfolding read_to_loop
read_to_loop-Passes chars [] k = Passes-here [] k
read_to_loop-Passes chars (c ∷ cs) k = elim (Bool-cases (has_char chars c)) [
  | inl e ↦ rw e (Passes-here (c ∷ cs) k)
  | inr e ↦ rw e (Passes-step c cs k (read_to_loop-Passes chars cs (advance c k)))
]

pub skip_spaces-Tracks : (skip_eol : Bool) (f : Feeder) → Tracks f → Tracks (skip_spaces skip_eol f)
unfolding skip_spaces
skip_spaces-Tracks skip_eol f t =
    place-Tracks f _ t (skip_spaces_loop-Passes skip_eol (unread f) (cursor f))

pub read_to-Tracks : (chars : Bytes) (f : Feeder) → Tracks f → Tracks (read_to chars f).0
unfolding read_to
read_to-Tracks chars f t =
    Tracks-same_place (place f (read_to_loop chars (unread f) (cursor f)).0) _ refl refl refl
      (place-Tracks f _ t (read_to_loop-Passes chars (unread f) (cursor f)))

pub read_to_char-Tracks : (c : ℕ) (f : Feeder) → Tracks f → Tracks (read_to_char c f).0
unfolding read_to_char
read_to_char-Tracks c f t =
    Tracks-same_place (place f (read_to_loop (c ∷ []) (unread f) (cursor f)).0) _ refl refl refl
      (place-Tracks f _ t (read_to_loop-Passes (c ∷ []) (unread f) (cursor f)))

-- What starts with a pattern is the pattern and a rest.
pub starts_with-append :
    (pattern text : Bytes)
    → starts_with pattern text ≡ true
    → (left : Bytes) × (text ≡ pattern ++ left)
unfolding starts_with
starts_with-append [] text h = (text, refl)
starts_with-append (x ∷ xs) [] h = cc
starts_with-append (x ∷ xs) (c ∷ cs) h =
    let (left, e) = starts_with-append xs cs (ground arith) in (left, ground arith)

-- The place that a search found: the pattern stands there.
pub record Found (pattern text : Bytes) (k k' : Cursor) : Type 0 where
  pub before : Bytes
  pub after : Bytes
  pub splits : text ≡ before ++ (pattern ++ after)
  pub ends : k' ≡ recalc_loop before k

Found-here :
    (pattern text after : Bytes) (k k' : Cursor)
    → text ≡ pattern ++ after
    → k ≡ k'
    → Found pattern text k k'
unfolding recalc_loop
Found-here pattern text after k k' split e = record {
  before = [];
  after = after;
  splits = split;
  ends = sym e;
}

Found-step :
    (pattern cs : Bytes) (c : ℕ) (k k' : Cursor)
    → Found pattern cs (advance c k) k'
    → Found pattern (c ∷ cs) k k'
unfolding recalc_loop
Found-step pattern cs c k k' s = record {
  before = c ∷ s.before;
  after = s.after;
  splits = ap (◌∷◌ c) s.splits;
  ends = s.ends;
}

pub search_loop-Found :
    (pattern text : Bytes) (k k' : Cursor)
    → search_loop pattern text k ≡ some k'
    → Found pattern text k k'
unfolding search_loop
search_loop-Found pattern [] k k' h = cc
search_loop-Found pattern (c ∷ cs) k k' h = elim (Bool-cases (starts_with pattern (c ∷ cs))) [
  | inl e ↦
      let (left, split) = starts_with-append pattern (c ∷ cs) e in
      Found-here pattern (c ∷ cs) left k k' split (ground arith)
  | inr e ↦
      Found-step pattern cs c k k' (search_loop-Found pattern cs (advance c k) k' (ground arith))
]

found_pattern-Tracks :
    (pattern : Bytes) (consume : Bool) (f : Feeder) (o : Option Cursor)
    → Tracks f
    → All (λ c. c ≢ newline) pattern
    → ((k : Cursor) → o ≡ some k → Found pattern (unread f) (cursor f) k)
    → Tracks (found_pattern pattern consume f o).0
found_pattern-Tracks pattern consume f none t h found = t
found_pattern-Tracks pattern true f (some k) t h found =
    let s = found k refl in
    Tracks-same_place (place f (record k { p = k.p + length pattern })) _ refl refl refl (
      place-Tracks f _ t (record {
        over = s.before ++ pattern;
        left = s.after;
        splits = s.splits ∙ sym (append_assoc s.before pattern s.after);
        ends =
            sym (recalc_loop_same_line pattern k h)
            ∙ ap (recalc_loop pattern) s.ends
            ∙ sym (recalc_loop-append s.before pattern (cursor f));
      }))
found_pattern-Tracks pattern false f (some k) t h found =
    let s = found k refl in
    Tracks-same_place (place f k) _ refl refl refl (
      place-Tracks f k t
        (record { over = s.before; left = pattern ++ s.after; splits = s.splits; ends = s.ends }))

pub search_pattern-Tracks :
    (pattern : Bytes) (consume : Bool) (f : Feeder)
    → Tracks f
    → All (λ c. c ≢ newline) pattern
    → Tracks (search_pattern pattern consume f).0
unfolding search_pattern
search_pattern-Tracks pattern consume f t h =
    found_pattern-Tracks pattern consume f (search_loop pattern (unread f) (cursor f)) t h
      (λ k e. search_loop-Found pattern (unread f) (cursor f) k e)
