-- ===== src/Preproc/LineGaps.antt =====
-- LineEndsBeforeNextToken over blanks and comments.
use dq_lang.Feeder.Scan.{is_blank, starts_with}
use dq_lang.Feeder.State.{Feeder, is_eol, unread}
use dq_lang.Preproc.Skipping.{line_ends_loop, line_ends_before_next_token}
use dq_lang.Prelude.{
  ℕ, ◌≡◌, refl, ap, ◌∙◌, Bool, true, false, not, ◌&&◌, ◌||◌, List, [], ◌∷◌, ◌++◌, append_assoc,
  arith, ◌==◌, All, codes, Bytes,
}

-- The text of a comment that ends on its line: no line end, and no closer in it.
unfoldable pub is_comment_text : Bytes → Bool
is_comment_text [] = true
is_comment_text (c ∷ []) = not (is_eol c)
is_comment_text (c ∷ d ∷ cs) =
    let later = is_comment_text (d ∷ cs) in not (is_eol c) && not (c == b'*' && d == b'/') && later

-- What may stand between two tokens on a line.
pub data Gap : Type 0 where
  blank : ℕ → Gap
  comment : Bytes → Gap

unfoldable pub is_gap : Gap → Bool
unfolding is_comment_text
is_gap (blank c) = is_blank c
is_gap (comment text) = is_comment_text text

unfoldable pub gap_text : Gap → Bytes
gap_text (blank c) = c ∷ []
gap_text (comment text) = b'/' ∷ b'*' ∷ (text ++ b'*' ∷ b'/' ∷ [])

unfoldable pub gaps_text : List Gap → Bytes
unfolding gap_text
gaps_text [] = []
gaps_text (g ∷ gs) = gap_text g ++ gaps_text gs

-- A text that does not go on with a gap: it ends the line, or a token stands there.
unfoldable pub at_line_end : Bytes → Bool
at_line_end [] = true
at_line_end (c ∷ cs) = is_eol c || c == b'/' && starts_with (codes "/") cs

unfoldable pub opens_gap : Bytes → Bool
opens_gap [] = false
opens_gap (c ∷ cs) = is_blank c || c == b'/' && starts_with (codes "*") cs

line_ends_loop-closed :
    (text rest : Bytes)
    → is_comment_text text ≡ true
    → line_ends_loop true (text ++ b'*' ∷ b'/' ∷ rest) ≡ line_ends_loop false rest
unfolding is_comment_text line_ends_loop
line_ends_loop-closed [] rest h = refl
line_ends_loop-closed (c ∷ []) rest h = ground arith
line_ends_loop-closed (c ∷ d ∷ cs) rest h =
    let later : line_ends_loop true ((d ∷ cs) ++ b'*' ∷ b'/' ∷ rest) ≡ line_ends_loop false rest =
      line_ends_loop-closed (d ∷ cs) rest (ground arith) in
    ground arith

line_ends_loop-blank :
    (c : ℕ) (rest : Bytes)
    → is_blank c ≡ true
    → line_ends_loop false (c ∷ rest) ≡ line_ends_loop false rest
unfolding line_ends_loop
line_ends_loop-blank c [] h = ground arith
line_ends_loop-blank c (d ∷ cs) h = ground arith

line_ends_loop-gap :
    (g : Gap) (rest : Bytes)
    → is_gap g ≡ true
    → line_ends_loop false (gap_text g ++ rest) ≡ line_ends_loop false rest
unfolding is_gap gap_text line_ends_loop
line_ends_loop-gap (blank c) rest h = line_ends_loop-blank c rest h
line_ends_loop-gap (comment text) rest h =
    ap (line_ends_loop true) (append_assoc text (b'*' ∷ b'/' ∷ []) rest)
    ∙ line_ends_loop-closed text rest h

line_ends_loop-gaps :
    (gaps : List Gap) (rest : Bytes)
    → All (λ g. is_gap g ≡ true) gaps
    → line_ends_loop false (gaps_text gaps ++ rest) ≡ line_ends_loop false rest
unfolding gaps_text
line_ends_loop-gaps [] rest h = refl
line_ends_loop-gaps (g ∷ gs) rest (hg, h) =
    ap (line_ends_loop false) (append_assoc (gap_text g) (gaps_text gs) rest)
    ∙ line_ends_loop-gap g (gaps_text gs ++ rest) hg
    ∙ line_ends_loop-gaps gs rest h

line_ends_loop-at_line_end :
    (rest : Bytes) → opens_gap rest ≡ false → line_ends_loop false rest ≡ at_line_end rest
unfolding line_ends_loop opens_gap at_line_end starts_with
line_ends_loop-at_line_end [] h = refl
line_ends_loop-at_line_end (c ∷ []) h = ground arith
line_ends_loop-at_line_end (c ∷ d ∷ cs) h = ground arith

-- Where blanks and comments that end on their line stand in front of the cursor, and behind them no
-- further blank and no further comment opener, LineEndsBeforeNextToken answers yes exactly if the
-- text ends there, or a line end or `//` stands there.
pub line_ends_before_next_token-at_line_end :
    (f : Feeder) (gaps : List Gap) (rest : Bytes)
    → unread f ≡ gaps_text gaps ++ rest
    → All (λ g. is_gap g ≡ true) gaps
    → opens_gap rest ≡ false
    → line_ends_before_next_token f ≡ at_line_end rest
unfolding line_ends_before_next_token
line_ends_before_next_token-at_line_end f gaps rest split h e =
    ap (line_ends_loop false) split
    ∙ line_ends_loop-gaps gaps rest h
    ∙ line_ends_loop-at_line_end rest e
