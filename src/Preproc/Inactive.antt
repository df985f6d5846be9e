-- ===== src/Preproc/Inactive.antt =====
-- SkipInactiveCode ends, and where it stops.
use dq_lang.Feeder.Quoted.{
  two_quotes, finish_quoted, read_quoted_from, read_quoted_at, read_quoted_string,
}
use dq_lang.Feeder.Scan.{has_char, read_to_loop, starts_with, read_to}
use dq_lang.Feeder.State.{
  Feeder, Cursor, advance, unread, recalc_line_col, save_cur_pos, search_cl_start,
  recalc_cur_line_col, set_cur_pos, mark_prevpos, ScFile, cursor,
}
use dq_lang.Feeder.Tokens.{check_symbol}
use dq_lang.Preproc.Skipping.{
  skip_byte, past_quoted, round_at, inactive_round, skip_inactive_loop, skip_inactive_code,
  inactive_behind,
}
use dq_lang.Prelude.{
  ℕ, ◌+◌, ◌≤◌, ◌<◌, ◌≡◌, refl, ◌⊎◌, inl, inr, Bool, true, false, not, ◌&&◌, Option, none, some, [],
  ◌∷◌, arith, ◌==◌, Bool-cases, length, codes, Bytes, ◌||◌, get_or, zero, suc, ◌-◌, ap, ◌∙◌, ltb,
  length-drop,
}

-- A round moved forward in the same file.
pub record Moves (f g : Feeder) : Type 0 where
  pub same_file : g.file ≡ f.file
  pub forward : f.curp ≤ g.curp

-- Where the skipping stops: the end of the text, a directive or a comment.
abbrev pub IsStop : Feeder → Type 0
IsStop g =
    (length g.file.body ≤ g.curp)
    ⊎ (starts_with (codes "#") (unread g) ≡ true)
    ⊎ (starts_with (codes "//") (unread g) ≡ true)
    ⊎ (starts_with (codes "/*") (unread g) ≡ true)

read_to_loop-forward :
    (chars text : Bytes) (k : Cursor)
    → (k.p ≤ (read_to_loop chars text k).0.p)
      × ((read_to_loop chars text k).1 ≡ false
          → (read_to_loop chars text k).0.p ≡ k.p + length text)
unfolding read_to_loop
read_to_loop-forward chars [] k = (omega arith, λ _. omega arith)
read_to_loop-forward chars (c ∷ cs) k = elim (Bool-cases (has_char chars c)) [
  | inl e ↦ rw e (omega arith, λ h. absurd (ground arith))
  | inr e ↦
      let (further, to_end) = read_to_loop-forward chars cs (advance c k) in
      rw e (omega arith, λ h. omega (arith, to_end h))
]

recalc_cur_line_col-curp : (f : Feeder) → (recalc_cur_line_col f).curp ≡ f.curp
unfolding recalc_cur_line_col search_cl_start recalc_line_col
recalc_cur_line_col-curp f = refl

recalc_cur_line_col-file : (f : Feeder) → (recalc_cur_line_col f).file ≡ f.file
unfolding recalc_cur_line_col search_cl_start recalc_line_col
recalc_cur_line_col-file f = refl

-- Behind a literal, or one byte further where there is none.
finish_quoted-Moves :
    (f : Feeder) (triple : Bool) (start : ℕ) (o : Option (ℕ × ℕ))
    → f.curp < start
    → Moves (skip_byte f) (past_quoted (finish_quoted f triple start o))
unfolding finish_quoted save_cur_pos set_cur_pos search_cl_start
finish_quoted-Moves f triple start none h = record { same_file = refl; forward = omega arith }
finish_quoted-Moves f triple start (some (n, past)) h =
    let g = record f { curp = start + past } in
    record {
      same_file = recalc_cur_line_col-file g;
      forward = omega (arith, recalc_cur_line_col-curp g);
    }

read_quoted_at-Moves :
    (f : Feeder) (text : Bytes) → Moves (skip_byte f) (past_quoted (read_quoted_at f text))
unfolding read_quoted_at read_quoted_from
read_quoted_at-Moves f [] = record { same_file = refl; forward = omega arith }
read_quoted_at-Moves f (c ∷ cs) = elim (Bool-cases (not (c == b'"') && not (c == b'\''))) [
  | inl e ↦ rw e (record { same_file = refl; forward = omega arith })
  | inr e ↦ elim (Bool-cases (two_quotes c cs)) [
    | inl t ↦ rw (e, t) (finish_quoted-Moves f true (f.curp + 3) _ (omega arith))
    | inr t ↦ rw (e, t) (finish_quoted-Moves f false (f.curp + 1) _ (omega arith))
  ]
]

read_quoted_string-Moves : (f : Feeder) → Moves (skip_byte f) (past_quoted (read_quoted_string f))
unfolding read_quoted_string save_cur_pos
read_quoted_string-Moves f =
    let g = record f { prevpos = some (save_cur_pos f); prevp = f.curp } in
    let m = read_quoted_at-Moves g (unread f) in
    record { same_file = m.same_file; forward = m.forward }

check_symbol-kept :
    (text : Bytes) (f : Feeder)
    → check_symbol text false f ≡ (mark_prevpos f, starts_with text (unread f))
unfolding check_symbol
check_symbol-kept text f = elim (Bool-cases (starts_with text (unread f))) [
  | inl e ↦ rw e refl
  | inr e ↦ rw e refl
]

-- What a round did: it goes on behind a byte, or it stopped.
abbrev Goes : Feeder → Feeder × Bool → Type 0
Goes f r = ((r.1 ≡ true) × Moves (skip_byte f) r.0) ⊎ ((r.1 ≡ false) × Moves f r.0 × IsStop r.0)

-- The bytes are looked at behind two changes of prevpos only.
round_at-Goes : (f : Feeder) → Goes f (round_at f)
unfolding round_at save_cur_pos
round_at-Goes f =
    let f1 = mark_prevpos f in
    let f2 = mark_prevpos f1 in
    let hash = check_symbol-kept (codes "#") f in
    let line = check_symbol-kept (codes "//") f1 in
    let block = check_symbol-kept (codes "/*") f2 in
    elim (Bool-cases
      (b'"' == get_or f.file.body f.curp 0 || b'\'' == get_or f.file.body f.curp 0)) [
        | inl e ↦ rw e (inl (refl, read_quoted_string-Moves f))
        | inr e ↦ elim (Bool-cases (starts_with (codes "#") (unread f))) [
          | inl s ↦
              rw (e, hash, s)
                (inr (refl, record { same_file = refl; forward = omega arith }, inr (inl s)))
          | inr s ↦ elim (Bool-cases (starts_with (codes "//") (unread f))) [
            | inl l ↦
                rw (e, hash, s, line, l)
                  (inr
                    (refl, record { same_file = refl; forward = omega arith }, inr (inr (inl l))))
            | inr l ↦ elim (Bool-cases (starts_with (codes "/*") (unread f))) [
              | inl b ↦
                  rw (e, hash, s, line, l, block, b)
                    (inr
                      (refl, record { same_file = refl; forward = omega arith }, inr (inr (inr b))))
              | inr b ↦
                  rw (e, hash, s, line, l, block, b)
                    (inl (refl, record { same_file = refl; forward = omega arith }))
            ]
          ]
        ]
      ]

-- ReadTo moves forward, and to the end of the text where it finds nothing.
read_to-Moves :
    (chars : Bytes) (f : Feeder)
    → Moves f (read_to chars f).0
      × ((read_to chars f).1 ≡ false → length f.file.body ≤ (read_to chars f).0.curp)
unfolding read_to
read_to-Moves chars f =
    let (forward, to_end) = read_to_loop-forward chars (unread f) (cursor f) in
    (
      record { same_file = refl; forward = forward },
      λ e. omega (arith, to_end e, length-drop {0} f.curp f.file.body),
    )

inactive_behind-Goes :
    (f : Feeder) (r : Feeder × Bool)
    → Moves f r.0
    → (r.1 ≡ false → length f.file.body ≤ r.0.curp)
    → Goes f (inactive_behind r)
unfolding inactive_behind
inactive_behind-Goes f (g, false) m to_end =
    inr (refl, m, inl (omega (arith, to_end refl, ap (λ (s : ScFile). length s.body) m.same_file)))
inactive_behind-Goes f (g, true) m to_end = elim (round_at-Goes g) [
  | inl (more, n) ↦ inl (
    more,
    record { same_file = n.same_file ∙ m.same_file; forward = omega (arith, m.forward, n.forward) },
  )
  | inr (done, n, stop) ↦ inr (
    done,
    record { same_file = n.same_file ∙ m.same_file; forward = omega (arith, m.forward, n.forward) },
    stop,
  )
]

inactive_round-Goes : (f : Feeder) → Goes f (inactive_round f)
unfolding inactive_round
inactive_round-Goes f =
    let (m, to_end) = read_to-Moves (codes "\"'#/") f in
    inactive_behind-Goes f (read_to (codes "\"'#/") f) m to_end

skip_inactive_loop_total :
    (n : ℕ) (f : Feeder)
    → length f.file.body - f.curp < n
    → (g : Feeder) × (skip_inactive_loop n f ≡ some g) × Moves f g × IsStop g
unfolding skip_inactive_loop
skip_inactive_loop_total zero f h = absurd (omega arith)
skip_inactive_loop_total (suc n) f h =
    let r = inactive_round f in
    elim (Bool-cases (ltb f.curp (length f.file.body))) [
      | inr e ↦
          (f, rw e refl, record { same_file = refl; forward = omega arith }, inl (ground arith))
      | inl e ↦ elim (inactive_round-Goes f) [
        | inr (done, m, stop) ↦ (r.0, rw (e, done) refl, m, stop)
        | inl (more, m) ↦
            let less : f.curp < length f.file.body = ground arith in
            let (g, same, further, stop) =
              skip_inactive_loop_total n r.0
                (omega (arith, m.forward, ap (λ (s : ScFile). length s.body) m.same_file)) in
            (
              g,
              rw (e, more) same,
              record {
                same_file = further.same_file ∙ m.same_file;
                forward = omega (arith, m.forward, further.forward);
              },
              stop,
            )
      ]
    ]

-- SkipInactiveCode ends for every text and every place in it: it stays in the file, does not move
-- back, and stops at the end of the text, at a `#`, or at a `//` or a `/*`.
pub skip_inactive_code_total :
    (f : Feeder) → (g : Feeder) × (skip_inactive_code f ≡ some g) × Moves f g × IsStop g
unfolding skip_inactive_code
skip_inactive_code_total f =
    skip_inactive_loop_total (length f.file.body - f.curp + 1) f (omega arith)
