-- ===== src/Burst/Parse.antt =====
-- The stream of words as a grammar, and the burst assembler as its parser.
use aer_handshake_firmware.Base.{
  ℕ, zero, suc, ◌+◌, ◌%◌, ◌<◌, ◌≤◌, ◌≡◌, refl, ap, sym, ◌∙◌, true, false, not, List, [], ◌∷◌, ◌++◌,
  set, take, length, length-append, if◌then◌else◌, arith,
}
use aer_handshake_firmware.Codec.{CodecResult}
use aer_handshake_firmware.Burst.{Burst, expect_row, expect_col_or_tail, Event, feed, feed_all}
use aer_handshake_firmware.Burst.Branches.{
  buffered, slice-push, events_of, feed_ignored, feed_row, feed_col, feed_overflow, feed_stray_tail,
  feed_end, Branch, ignored, row, col, overflow, stray, end, branch,
}
use aer_handshake_firmware.Burst.Inv.{IsValid, feed-IsValid}

-- An accepted word: a row or column index, or the tail.
pub data Token : Type 0 where
  index : ℕ → Token
  tail : Token

-- The accepted words of a stream.
abbrev pub tokens : List CodecResult → List Token
tokens [] = []
tokens (w ∷ ws) =
    let rest = tokens ws in
    if not w.ok then rest else (if w.is_tail then tail else index (w.payload % 32)) ∷ rest

-- A burst that has begun, with all its columns so far.
pub data Open : Type 0 where
  waiting : Open
  begun : (r : ℕ) (cs : List ℕ) → Open

-- The events of a stream: each burst gives one event for each of its first 32 columns when its tail
-- comes; a tail outside a burst gives nothing, and so does a burst with no tail.
abbrev pub parse : Open → List Token → List Event
parse o [] = []
parse waiting (tail ∷ ts) = parse waiting ts
parse waiting (index r ∷ ts) = parse (begun r []) ts
parse (begun r cs) (index c ∷ ts) = parse (begun r (cs ++ c ∷ [])) ts
parse (begun r cs) (tail ∷ ts) = events_of r (take 32 cs) ++ parse waiting ts

-- The assembler stands where the parser stands.
abbrev pub StandsAt : Burst → Open → Type 0
StandsAt b waiting = b.state ≡ expect_row
StandsAt b (begun r cs) =
    (b.state ≡ expect_col_or_tail)
    × (b.row ≡ r)
    × (buffered b ≡ take 32 cs)
    × (b.col_count ≡ length (take 32 cs))

take-append_room :
    (n : ℕ) (cs : List ℕ) (c : ℕ)
    → length (take n cs) < n
    → take n (cs ++ c ∷ []) ≡ take n cs ++ c ∷ []
take-append_room zero cs c h = absurd (omega arith)
take-append_room (suc zero) [] c h = refl
take-append_room (suc (suc n)) [] c h = refl
take-append_room (suc n) (x ∷ cs) c h = ap (λ r. x ∷ r) (take-append_room n cs c (omega arith))

take-append_full :
    (n : ℕ) (cs : List ℕ) (c : ℕ) → n ≤ length (take n cs) → take n (cs ++ c ∷ []) ≡ take n cs
take-append_full zero cs c h = refl
take-append_full (suc n) [] c h = absurd (omega arith)
take-append_full (suc n) (x ∷ cs) c h = ap (λ r. x ∷ r) (take-append_full n cs c (omega arith))

tokens_ignored :
    (w : CodecResult) (ws : List CodecResult) → w.ok ≡ false → tokens (w ∷ ws) ≡ tokens ws
tokens_ignored w ws e = ground arith

tokens_index :
    (w : CodecResult) (ws : List CodecResult)
    → w.ok ≡ true
    → w.is_tail ≡ false
    → tokens (w ∷ ws) ≡ index (w.payload % 32) ∷ tokens ws
tokens_index w ws g i = ground arith

tokens_tail :
    (w : CodecResult) (ws : List CodecResult)
    → w.ok ≡ true
    → w.is_tail ≡ true
    → tokens (w ∷ ws) ≡ tail ∷ tokens ws
tokens_tail w ws g i = ground arith

-- A column that is buffered, and one that is dropped.
more_room :
    (b : Burst) (r : ℕ) (cs : List ℕ) (c : ℕ)
    → IsValid b
    → b.col_count < 32
    → StandsAt b (begun r cs)
    → StandsAt
        (record b { cols = set b.cols b.col_count c; col_count = b.col_count + 1 })
        (begun r (cs ++ c ∷ []))
more_room b r cs c v room (state, at, cols, count) =
    let e = take-append_room 32 cs c (omega arith) in
    (
      state,
      at,
      slice-push b.cols c b.col_count (omega arith) ∙ ap (λ l. l ++ c ∷ []) cols ∙ sym e,
      rw e (omega (arith, length-append {0} (take 32 cs) (c ∷ []))),
    )

no_room :
    (b : Burst) (r : ℕ) (cs : List ℕ) (c : ℕ)
    → 32 ≤ b.col_count
    → StandsAt b (begun r cs)
    → StandsAt b (begun r (cs ++ c ∷ []))
no_room b r cs c full (state, at, cols, count) =
    let e = take-append_full 32 cs c (omega arith) in
    (state, at, cols ∙ sym e, count ∙ ap length (sym e))

-- Where one word takes the assembler and the parser, and the events between.
record Advance (b : Burst) (o : Open) (w : CodecResult) (ws : List CodecResult) : Type 0 where
  next : Open
  stands : StandsAt (feed b w true).0 next
  events : parse o (tokens (w ∷ ws)) ≡ (feed b w true).1 ++ parse next (tokens ws)

advance :
    (b : Burst) (o : Open) (w : CodecResult) (ws : List CodecResult)
    → Branch b w
    → IsValid b
    → StandsAt b o
    → Advance b o w ws
advance b o w ws (ignored e) v s = record {
  next = o;
  stands = rw (feed_ignored b w true e) s;
  events = rw (feed_ignored b w true e, tokens_ignored w ws e);
}
advance b waiting w ws (row g i e) v s = record {
  next = begun (w.payload % 32) [];
  stands = rw (feed_row b w true g i e) (refl, refl, refl, refl);
  events = rw (feed_row b w true g i e, tokens_index w ws g i);
}
advance b waiting w ws (stray g t e) v s = record {
  next = waiting;
  stands = rw (feed_stray_tail b w true g t e) s;
  events = rw (feed_stray_tail b w true g t e, tokens_tail w ws g t);
}
advance b (begun r cs) w ws (col g i e room) v s = record {
  next = begun r (cs ++ (w.payload % 32) ∷ []);
  stands = rw (feed_col b w true g i e room) (more_room b r cs (w.payload % 32) v room s);
  events = rw (feed_col b w true g i e room, tokens_index w ws g i);
}
advance b (begun r cs) w ws (overflow g i e full) v s = record {
  next = begun r (cs ++ (w.payload % 32) ∷ []);
  stands = rw (feed_overflow b w true g i e full) (no_room b r cs (w.payload % 32) full s);
  events = rw (feed_overflow b w true g i e full, tokens_index w ws g i);
}
advance b (begun r cs) w ws (end g t e) v s = record {
  next = waiting;
  stands = rw (feed_end b w true (omega arith) g t e) refl;
  events = rw (feed_end b w true (omega arith) g t e, tokens_tail w ws g t) (rw (s.1, s.2));
}
advance b waiting w ws (col g i e room) v s = absurd (cc)
advance b waiting w ws (overflow g i e full) v s = absurd (cc)
advance b waiting w ws (end g t e) v s = absurd (cc)
advance b (begun r cs) w ws (row g i e) v s = absurd (cc s.0)
advance b (begun r cs) w ws (stray g t e) v s = absurd (cc s.0)

-- The events of any stream, given to the assembler from where the parser stands, are those of the
-- grammar: the assembler is its parser.
pub feed_all-parse :
    (ws : List CodecResult) (b : Burst) (o : Open)
    → IsValid b
    → StandsAt b o
    → (feed_all b ws true).1 ≡ parse o (tokens ws)
unfolding feed_all
feed_all-parse [] b waiting v s = refl
feed_all-parse [] b (begun r cs) v s = refl
feed_all-parse (w ∷ ws) b o v s =
    let a = advance b o w ws (branch b w) v s in
    ap (λ es. (feed b w true).1 ++ es)
      (feed_all-parse ws (feed b w true).0 a.next (feed-IsValid b w true v) a.stands)
    ∙ sym a.events
