-- ===== src/Logger/Line.antt =====
-- What the observer reads of a message.
mod Tests
use hft_demo.Common.{
  ℕ, zero, suc, ◌+◌, ◌-◌, min, ◌≤◌, ◌<◌, ◌≡◌, refl, ap, sym, subst, ◌∙◌, Bool, true, false, List,
  [], ◌∷◌, ◌++◌, ◌↔◌, inl, inr, Bool-cases, append-nil, append_assoc, arith, ltb, leb, ◌==◌,
  if◌then◌else◌, length, take, take_all, length-take, set, length-set, length-append, sub32,
}
use hft_demo.Common.Int.{ℤ}
use hft_demo.Market.{LogLevel, ObserverData, message_size, observer_length}
use hft_demo.Ring.{Ring, write}
use hft_demo.Logger.{
  true_size, Formatter, get_formatter, store, put_literal, put_text, put_digits, to_chars,
  put_integer, put_endl,
}
use hft_demo.Logger.Store.{
  length-store, take-set, take-set_end, take-store_before, take-store, take-append, take-min,
}

-- A value that is written with `<<`; a double comes with the text that std::to_chars has for it.
pub data Piece : Type 0 where
  literal : List ℕ → Piece
  text : List ℕ → Piece
  integer : ℤ → (scraps : List ℕ) → Piece
  double : (digits scraps : List ℕ) → Piece

abbrev pub put : Formatter → Piece → Formatter
put f (literal str) = put_literal f str
put f (text str) = put_text f str
put f (integer n scraps) = put_integer f n scraps
put f (double digits scraps) = put_digits f digits scraps

abbrev pub puts : Formatter → List Piece → Formatter
puts f [] = f
puts f (p ∷ ps) = puts (put f p) ps

-- The text up to the first zero byte.
abbrev pub c_str : List ℕ → List ℕ
c_str [] = []
c_str (c ∷ cs) = let rest = c_str cs in if c == 0 then [] else c ∷ rest

-- A message is cut at its room, but a number is left out where it does not fit whole.
abbrev pub whole_or_none : List ℕ → List ℕ → List ℕ
whole_or_none line digits = if leb (length (line ++ digits)) true_size then line ++ digits else line

abbrev pub joined : List ℕ → Piece → List ℕ
joined line (literal str) = take true_size (line ++ str)
joined line (text str) = take true_size (line ++ c_str str)
joined line (integer n scraps) = whole_or_none line (to_chars n)
joined line (double digits scraps) = whole_or_none line digits

abbrev pub join : List ℕ → List Piece → List ℕ
join line [] = line
join line (p ∷ ps) = join (joined line p) ps

-- A formatter that has put this line.
pub record Holds (put_line : List ℕ) (f : Formatter) : Type 0 where
  pub whole : length f.message ≡ message_size
  pub here : f.msg_pos ≡ length put_line
  pub room : length put_line ≤ true_size
  pub line : take f.msg_pos f.message ≡ put_line

module _ {line : List ℕ} (f : Formatter) (v : Holds line f) where
  store_lem :
      (cs : List ℕ)
      → length line + length cs ≤ true_size
      → Holds
          (line ++ cs)
          (record f { message = store f.message f.msg_pos cs; msg_pos = f.msg_pos + length cs })
  store_lem cs fits = record {
    whole = length-store f.message f.msg_pos cs ∙ v.whole;
    here = omega (arith, v.here, length-append line cs);
    room = omega (arith, length-append line cs);
    line =
        take-store (f.msg_pos + length cs) f.msg_pos f.message cs refl
          (omega (arith, v.here, v.whole))
        ∙ ap (λ t. t ++ cs) v.line;
  }

  kept_line : (rest : List ℕ) → length line ≡ true_size → take true_size (line ++ rest) ≡ line
  kept_line rest full =
      let none_left : true_size - length line ≡ 0 = omega arith in
      take-append true_size line rest v.room
      ∙ ap (λ n. line ++ take n rest) none_left
      ∙ append-nil line

free_lem : (n : ℕ) → n ≤ true_size → sub32 true_size n ≡ true_size - n
free_lem n h = omega arith

length-cut : (str : List ℕ) (n : ℕ) → length (take (min (length str) n) str) ≡ min (length str) n
length-cut str n = length-take (min (length str) n) str ∙ ground arith

-- A literal is cut to the free space.
put_literal_lem :
    {line : List ℕ} (f : Formatter) (str : List ℕ)
    → Holds line f
    → Holds (take true_size (line ++ str)) (put_literal f str)
unfolding put_literal
put_literal_lem {line} f str v =
    let free : sub32 true_size f.msg_pos ≡ true_size - length line =
      free_lem f.msg_pos (omega (arith, v.here, v.room)) ∙ ap (λ n. true_size - n) v.here in
    let n = true_size - length line in
    let cut : line ++ take (min (length str) n) str ≡ take true_size (line ++ str) =
      ap (λ t. line ++ t) (take-min n str) ∙ sym (take-append true_size line str v.room) in
    let stored =
      store_lem f v (take (min (length str) n) str) (omega (arith, length-cut str n, v.room)) in
    rw free (
      subst
        (λ size. Holds (take true_size (line ++ str)) (record f {
          message = store f.message f.msg_pos (take (min (length str) n) str);
          msg_pos = f.msg_pos + size;
        }))
        (length-cut str n)
        (subst
          (λ t. Holds t (record f {
            message = store f.message f.msg_pos (take (min (length str) n) str);
            msg_pos = f.msg_pos + length (take (min (length str) n) str);
          }))
          cut stored))

put_digits_lem :
    {line : List ℕ} (f : Formatter) (digits scraps : List ℕ)
    → Holds line f
    → Holds (whole_or_none line digits) (put_digits f digits scraps)
unfolding put_digits
put_digits_lem {line} f digits scraps v =
    elim (Bool-cases (leb (length digits) (true_size - f.msg_pos))) [
      | inl fits ↦
          let fits' : leb (length (line ++ digits)) true_size ≡ true =
            ground (arith, v.here, v.room, length-append line digits) in
          rw (fits, fits') (store_lem f v digits (ground (arith, v.here, v.room)))
      | inr large ↦
          let large' : leb (length (line ++ digits)) true_size ≡ false =
            ground (arith, v.here, v.room, length-append line digits) in
          rw (large, large')
            (record {
              whole =
                  length-store f.message f.msg_pos (take (true_size - f.msg_pos) scraps) ∙ v.whole;
              here = v.here;
              room = v.room;
              line =
                  take-store_before f.msg_pos f.msg_pos f.message
                    (take (true_size - f.msg_pos) scraps) (omega arith)
                  ∙ v.line;
            })
    ]

put_text_lem :
    (f : Formatter) (line str : List ℕ)
    → Holds line f
    → Holds (take true_size (line ++ c_str str)) (put_text f str)
unfolding put_text
put_text_lem f line [] v = rw (append-nil line, take_all true_size line v.room) v
put_text_lem f line (c ∷ str) v = elim (Bool-cases (c == 0)) [
  | inl ends ↦ rw (ends, append-nil line, take_all true_size line v.room) v
  | inr goes ↦ elim (Bool-cases (ltb f.msg_pos true_size)) [
    | inl room ↦
        rw (goes, room, ← append_assoc line (c ∷ []) (c_str str))
          (put_text_lem (record f { message = set f.message f.msg_pos c; msg_pos = f.msg_pos + 1 })
            (line ++ c ∷ []) str (store_lem f v (c ∷ []) (ground (arith, v.here))))
    | inr full ↦ rw (goes, full, kept_line f v (c ∷ c_str str) (ground (arith, v.here, v.room))) v
  ]
]

put-Holds :
    (f : Formatter) (line : List ℕ) (p : Piece) → Holds line f → Holds (joined line p) (put f p)
unfolding put_integer
put-Holds f line (literal str) v = put_literal_lem f str v
put-Holds f line (text str) v = put_text_lem f line str v
put-Holds f line (integer n scraps) v = put_digits_lem f (to_chars n) scraps v
put-Holds f line (double digits scraps) v = put_digits_lem f digits scraps v

puts-Holds :
    (f : Formatter) (line : List ℕ) (ps : List Piece)
    → Holds line f
    → Holds (join line ps) (puts f ps)
puts-Holds f line [] v = v
puts-Holds f line (p ∷ ps) v = puts-Holds (put f p) (joined line p) ps (put-Holds f line p v)

c_str-cut :
    (line message : List ℕ) {n : ℕ}
    → n ≡ length line
    → take (suc n) message ≡ line ++ 0 ∷ []
    → c_str message ≡ c_str line
c_str-cut [] [] e h = refl
c_str-cut [] (x ∷ xs) e h = ground (arith, h)
c_str-cut (c ∷ line) [] e h = cc (h)
c_str-cut (c ∷ line) (x ∷ xs) {n = zero} e h = absurd (omega arith)
c_str-cut (c ∷ line) (x ∷ xs) {n = suc n} e h =
    let rest = c_str-cut line xs {n = n} (omega arith) (ground (arith, h)) in
    ground (arith, h, rest)

put_text-frame :
    (f : Formatter) (str : List ℕ)
    → ((put_text f str).timestamp_ns ≡ f.timestamp_ns) × ((put_text f str).level ≡ f.level)
unfolding put_text
put_text-frame f [] = (refl, refl)
put_text-frame f (c ∷ str) =
    let next = record f { message = set f.message f.msg_pos c; msg_pos = f.msg_pos + 1 } in
    ground (arith, put_text-frame next str)

-- No value changes the time and the level of its message.
put-frame :
    (f : Formatter) (p : Piece)
    → ((put f p).timestamp_ns ≡ f.timestamp_ns) × ((put f p).level ≡ f.level)
unfolding put_literal put_integer put_digits
put-frame f (literal str) = (refl, refl)
put-frame f (text str) = put_text-frame f str
put-frame f (integer n scraps) = ground arith
put-frame f (double digits scraps) = ground arith

pub puts-frame :
    (f : Formatter) (ps : List Piece)
    → ((puts f ps).timestamp_ns ≡ f.timestamp_ns) × ((puts f ps).level ≡ f.level)
puts-frame f [] = (refl, refl)
puts-frame f (p ∷ ps) =
    let (time, level) = put-frame f p in
    let (time', level') = puts-frame (put f p) ps in (time' ∙ time, level' ∙ level)

-- From storage of `message_size` bytes, any sequence of `<<` and then `Endl` writes one record
-- to the ring, with the time, the level and a message of `message_size` bytes whose text, up to its
-- first zero byte, is that of the pieces joined: cut at the room, numbers whole or not at all.
pub log_line_lem :
    (storage : List ℕ) (now : ℕ) (level : LogLevel) (ps : List Piece) (ring : Ring ObserverData)
    → length storage ≡ message_size
    → (o : ObserverData) × ((put_endl (puts (get_formatter storage now level) ps) ring).1
        ≡ write observer_length ring o)
      × (o.timestamp_ns ≡ now)
      × (o.level ≡ level)
      × (length o.message ≡ message_size)
      × (c_str o.message ≡ c_str (join [] ps))
unfolding get_formatter put_endl
log_line_lem storage now level ps ring whole =
    let start : Holds [] (get_formatter storage now level) = record {
      whole = whole;
      here = refl;
      room = omega arith;
      line = refl;
    } in
    let v = puts-Holds (get_formatter storage now level) [] ps start in
    let f = puts (get_formatter storage now level) ps in
    (
      record {
        timestamp_ns = f.timestamp_ns;
        level = f.level;
        message = set f.message f.msg_pos 0;
      },
      refl,
      (puts-frame (get_formatter storage now level) ps).0,
      (puts-frame (get_formatter storage now level) ps).1,
      length-set f.message f.msg_pos 0 ∙ v.whole,
      c_str-cut (join [] ps) (set f.message f.msg_pos 0) {n = f.msg_pos} v.here (
          take-set_end f.msg_pos 0 f.message (omega (arith, v.here, v.room, v.whole))
          ∙ ap (λ t. t ++ 0 ∷ []) v.line),
    )
