-- ===== src/Feeder/TokenTracks.antt =====
-- The operations that read a token keep the line and the column right.
use dq_lang.Feeder.Scan.{starts_with}
use dq_lang.Feeder.State.{Feeder, newline, unread, cursor, move_to, mark_prevpos, save_cur_pos}
use dq_lang.Feeder.Tokens.{
  check_symbol, check_keyword, is_digit, identifier_loop, read_identifier, IntScan, int_loop,
  int_start, read_int64_value, hex_digit, hex_loop, read_hex64_value, span_loop, read_span,
  consume_to,
}
use dq_lang.Feeder.Tracking.{Tracks, move_to-Tracks, Tracks-same_place}
use dq_lang.Prelude.{
  ℕ, suc, ◌+◌, ◌-◌, ◌≤◌, ◌≡◌, ◌≢◌, refl, sym, ◌∙◌, ap, inl, inr, Bool, true, false, ◌&&◌, ◌||◌,
  some, [], ◌∷◌, arith, Bytes, length, take, drop, take-append-drop, length-take, All, Bool-cases,
  Option-cases, ◌==◌, ◌*◌, ◌%◌, ◌^◌, if◌then◌else◌,
}

-- The first n bytes of a text are there and hold no line end.
pub record OnLine (n : ℕ) (text : Bytes) : Type 0 where
  pub there : n ≤ length text
  pub no_eol : All (λ c. c ≢ newline) (take n text)

move_n-Tracks :
    (f : Feeder) (n : ℕ) → Tracks f → OnLine n (unread f) → Tracks (move_to f (f.curp + n))
move_n-Tracks f n t o =
    let e = length-take n (unread f) o.there in
    let moved : Tracks (move_to f (f.curp + length (take n (unread f)))) =
      move_to-Tracks f (take n (unread f)) (drop n (unread f)) t
        (sym (take-append-drop n (unread f))) o.no_eol in
    rw e at moved

-- mark_prevpos and the fields that a token sets do not count for the tracking.
consume-Tracks :
    (f g : Feeder) (n : ℕ)
    → g.file ≡ f.file
    → cursor g ≡ cursor f
    → Tracks f
    → OnLine n (unread f)
    → Tracks (consume_to g (f.curp + n))
consume-Tracks f g n file at t o =
    Tracks-same_place (move_to f (f.curp + n)) _ file (ground arith) (ground arith)
      (move_n-Tracks f n t o)

starts_with-OnLine :
    (pattern text : Bytes)
    → starts_with pattern text ≡ true
    → All (λ c. c ≢ newline) pattern
    → OnLine (length pattern) text
unfolding starts_with
starts_with-OnLine [] text h plain = record { there = omega arith; no_eol = tt }
starts_with-OnLine (x ∷ xs) [] h plain = cc
starts_with-OnLine (x ∷ xs) (c ∷ cs) h (nx, plain) =
    let o = starts_with-OnLine xs cs (ground arith) plain in
    record { there = omega (arith, o.there); no_eol = (ground arith, o.no_eol) }

pub check_symbol-Tracks :
    (text : Bytes) (consume : Bool) (f : Feeder)
    → Tracks f
    → All (λ c. c ≢ newline) text
    → Tracks (check_symbol text consume f).0
unfolding check_symbol
check_symbol-Tracks text consume f t plain = elim (Bool-cases (starts_with text (unread f))) [
  | inr e ↦ rw e (Tracks-same_place f _ refl refl refl t)
  | inl e ↦ rw e (branch consume (starts_with-OnLine text (unread f) e plain))
]
  where
    branch :
        (b : Bool)
        → OnLine (length text) (unread f)
        → Tracks (if b then consume_to (mark_prevpos f) (f.curp + length text) else mark_prevpos f)
    branch true o = consume-Tracks f (mark_prevpos f) (length text) refl refl t o
    branch false o = Tracks-same_place f _ refl refl refl t

pub check_keyword-Tracks :
    (text : Bytes) (consume : Bool) (f : Feeder)
    → Tracks f
    → All (λ c. c ≢ newline) text
    → Tracks (check_keyword text consume f).0
unfolding check_keyword
check_keyword-Tracks text consume f t plain =
    ground (arith, t, check_symbol-Tracks text consume f t plain)

identifier_loop-OnLine : (first : Bool) (text : Bytes) → OnLine (identifier_loop first text) text
unfolding identifier_loop
identifier_loop-OnLine first [] = record { there = omega arith; no_eol = tt }
identifier_loop-OnLine first (c ∷ cs) = ground (arith, identifier_loop-OnLine false cs)

int_loop-OnLine :
    (text : Bytes) (s : IntScan) → (n : ℕ) × ((int_loop text s).count ≡ s.count + n) × OnLine n text
unfolding int_loop is_digit
int_loop-OnLine [] s = (0, omega arith, record { there = omega arith; no_eol = tt })
int_loop-OnLine (c ∷ cs) s =
    elim (Bool-cases (is_digit c || (c == b'-' || c == b'+') && s.count == 0)) [
      | inr e ↦ (0, rw e (omega arith), record { there = omega arith; no_eol = tt })
      | inl e ↦
          let (n, size, o) = int_loop-OnLine cs (record {
            count = s.count + 1;
            result = if is_digit c then (s.result * 10 + (c - b'0')) % 2 ^ 64 else s.result;
            negative = if is_digit c then s.negative else c == b'-';
            has_digit = if is_digit c then true else s.has_digit;
          }) in
          (
            suc n,
            rw e (omega (arith, size)),
            record { there = omega (arith, o.there); no_eol = (ground arith, o.no_eol) },
          )
    ]

hex_loop-OnLine :
    (text : Bytes) (count result : ℕ)
    → (n : ℕ) × ((hex_loop text count result).0 ≡ count + n) × OnLine n text
unfolding hex_loop hex_digit
hex_loop-OnLine [] count result = (0, omega arith, record { there = omega arith; no_eol = tt })
hex_loop-OnLine (c ∷ cs) count result = elim (Option-cases (hex_digit c)) [
  | inl e ↦ (0, rw (e, hex_loop) (omega arith), record { there = omega arith; no_eol = tt })
  | inr (v, e) ↦
      let (n, size, o) = hex_loop-OnLine cs (count + 1) ((result * 16 + v) % 2 ^ 64) in
      (
        suc n,
        rw (e, hex_loop) (omega (arith, size)),
        record { there = omega (arith, o.there); no_eol = (ground arith, o.no_eol) },
      )
]

true≢false : true ≢ false
true≢false e = cc

span_loop-OnLine :
    (test : ℕ → Bool) (text : Bytes) → test newline ≡ false → OnLine (span_loop test text) text
unfolding span_loop
span_loop-OnLine test [] h = record { there = omega arith; no_eol = tt }
span_loop-OnLine test (c ∷ cs) h = elim (Bool-cases (test c)) [
  | inr e ↦ rw e (record { there = omega arith; no_eol = tt })
  | inl e ↦
      let o = span_loop-OnLine test cs h in
      rw e (record {
        there = omega (arith, o.there);
        no_eol = ((λ at. true≢false (sym e ∙ ap test at ∙ h)), o.no_eol);
      })
]

pub read_identifier-Tracks :
    (consume : Bool) (f : Feeder) → Tracks f → Tracks (read_identifier consume f).0
unfolding read_identifier
read_identifier-Tracks consume f t =
    let n = identifier_loop true (unread f) in
    let g = record (mark_prevpos f) { prevp = f.curp; prevlen = n } in
    let stays : Tracks g = Tracks-same_place f g refl refl refl t in
    let moves : Tracks (consume_to g (f.curp + n)) =
      consume-Tracks f g n refl refl t (identifier_loop-OnLine true (unread f)) in
    ground arith

pub read_int64_value-Tracks : (f : Feeder) → Tracks f → Tracks (read_int64_value f).0
unfolding read_int64_value
read_int64_value-Tracks f t =
    let s = int_loop (unread f) int_start in
    let g = record f { prevpos = some (save_cur_pos f); prevp = f.curp } in
    let (n, size, o) = int_loop-OnLine (unread f) int_start in
    let e : s.count ≡ n = omega arith in
    let stays : Tracks g = Tracks-same_place f g refl refl refl t in
    let moves : Tracks (consume_to (record g { prevlen = s.count }) (f.curp + s.count)) =
      rw e (consume-Tracks f (record g { prevlen = n }) n refl refl t o) in
    ground arith

pub read_hex64_value-Tracks : (f : Feeder) → Tracks f → Tracks (read_hex64_value f).0
unfolding read_hex64_value
read_hex64_value-Tracks f t =
    let m = (hex_loop (unread f) 0 0).0 in
    let g = record f { prevpos = some (save_cur_pos f); prevp = f.curp; prevlen = m } in
    let (n, size, o) = hex_loop-OnLine (unread f) 0 0 in
    let e : m ≡ n = omega arith in
    let stays : Tracks g = Tracks-same_place f g refl refl refl t in
    let moves : Tracks (consume_to g (f.curp + m)) =
      rw e (consume-Tracks f (record g { prevlen = n }) n refl refl t o) in
    ground arith

pub read_span-Tracks :
    (test : ℕ → Bool) (f : Feeder) → test newline ≡ false → Tracks f → Tracks (read_span test f).0
unfolding read_span
read_span-Tracks test f h t =
    Tracks-same_place (move_to f (f.curp + span_loop test (unread f))) _ refl refl refl
      (move_n-Tracks f (span_loop test (unread f)) t (span_loop-OnLine test (unread f) h))
