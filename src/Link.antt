-- ===== src/Link.antt =====
-- The sensor's side of the link in README.md section 5, and the receiving path behind the ring:
-- `aer_decode_word` and `aer_burst_feed` on each raw word.
mod Tests
use aer_handshake_firmware.Base.{
  ℕ, zero, suc, ◌+◌, ◌-◌, ◌*◌, ◌%◌, ◌^◌, ◌<◌, ◌≤◌, ◌≡◌, ◌≢◌, refl, ap, ap₂, sym, ◌∙◌, Bool, true,
  false, not, Option, none, some, List, [], ◌∷◌, ◌++◌, map, take, length, length-append,
  if◌then◌else◌, ltb, leb, ◌==◌, arith, All, append-nil, append_assoc,
}
use aer_handshake_firmware.Codec.{CodecResult, decode_word, encode_word}
use aer_handshake_firmware.Codec.Encode.{decode-encode}
use aer_handshake_firmware.Burst.{Burst, Event, expect_row, feed, feed_all}
use aer_handshake_firmware.Burst.Branches.{events_of}
use aer_handshake_firmware.Burst.Inv.{IsValid}
use aer_handshake_firmware.Burst.Parse.{
  Token, index, tail, tokens, Open, waiting, begun, parse, feed_all-parse,
}

-- A burst: a row and the columns that fired in it.
pub record RowBurst : Type 0 where
  pub row : ℕ
  pub cols : List ℕ

-- Indices of the sensor, and no more columns than it has.
pub record Fits (m : RowBurst) : Type 0 where
  pub row_in : m.row < 32
  pub cols_in : All (λ c. c < 32) m.cols
  pub few : length m.cols ≤ 32

-- The bus words of a sequence of bursts: ROW, COL ..., TAIL for each.
abbrev pub transmit : List RowBurst → List ℕ
transmit [] = []
transmit (m ∷ ms) = encode_word m.row ∷ (map encode_word m.cols ++ (encode_word 63 ∷ transmit ms))

abbrev pub events : List RowBurst → List Event
events [] = []
events (m ∷ ms) = events_of m.row m.cols ++ events ms

-- What the receiver makes of raw words.
unfoldable pub receive : Burst → List ℕ → Burst × List Event
receive b raws = feed_all b (map decode_word raws) true

-- The first word, then the others.
pub receive-cons :
    (b : Burst) (w : ℕ) (ws : List ℕ)
    → ((receive b (w ∷ ws)).0 ≡ (receive (receive b (w ∷ [])).0 ws).0)
      × ((receive b (w ∷ ws)).1 ≡ (receive b (w ∷ [])).1 ++ (receive (receive b (w ∷ [])).0 ws).1)
unfolding receive feed_all
receive-cons b w ws = (
  refl,
  ap (λ es. es ++ (receive (feed b (decode_word w) true).0 ws).1)
      (sym (append-nil (feed b (decode_word w) true).1)),
)

tokens-index :
    (i : ℕ) (ws : List CodecResult)
    → i < 32
    → tokens (decode_word (encode_word i) ∷ ws) ≡ index i ∷ tokens ws
tokens-index i ws h = rw (decode-encode i (omega arith)) (ground arith)

tokens-tail :
    (ws : List CodecResult) → tokens (decode_word (encode_word 63) ∷ ws) ≡ tail ∷ tokens ws
tokens-tail ws = rw (decode-encode 63 (omega arith))

tokens-cols :
    (cs ws : List ℕ)
    → All (λ c. c < 32) cs
    → tokens (map decode_word (map encode_word cs ++ ws))
      ≡ map index cs ++ tokens (map decode_word ws)
tokens-cols [] ws h = refl
tokens-cols (c ∷ cs) ws h =
    tokens-index c (map decode_word (map encode_word cs ++ ws)) h.0
    ∙ ap (λ ts. index c ∷ ts) (tokens-cols cs ws h.1)

-- The tokens of well-formed bursts.
grammar : List RowBurst → List Token
grammar [] = []
grammar (m ∷ ms) = index m.row ∷ (map index m.cols ++ (tail ∷ grammar ms))

tokens-transmit :
    (ms : List RowBurst) → All Fits ms → tokens (map decode_word (transmit ms)) ≡ grammar ms
unfolding grammar
tokens-transmit [] h = refl
tokens-transmit (m ∷ ms) (fits, h) =
    tokens-index m.row (map decode_word (map encode_word m.cols ++ (encode_word 63 ∷ transmit ms)))
      fits.row_in
    ∙ ap (λ ts. index m.row ∷ ts)
        (tokens-cols m.cols (encode_word 63 ∷ transmit ms) fits.cols_in
          ∙ ap (λ ts. map index m.cols ++ ts)
              (tokens-tail (map decode_word (transmit ms))
                ∙ ap (λ ts. tail ∷ ts) (tokens-transmit ms h)))

parse-cols :
    (cs pre : List ℕ) (r : ℕ) (ts : List Token)
    → parse (begun r pre) (map index cs ++ (tail ∷ ts))
      ≡ events_of r (take 32 (pre ++ cs)) ++ parse waiting ts
parse-cols [] pre r ts = rw append-nil
parse-cols (c ∷ cs) pre r ts =
    parse-cols cs (pre ++ c ∷ []) r ts
    ∙ ap (λ l. events_of r (take 32 l) ++ parse waiting ts) (append_assoc pre (c ∷ []) cs)

take_all : (n : ℕ) (cs : List ℕ) → length cs ≤ n → take n cs ≡ cs
take_all zero [] h = refl
take_all zero (c ∷ cs) h = absurd (omega arith)
take_all (suc n) [] h = refl
take_all (suc n) (c ∷ cs) h = ap (λ l. c ∷ l) (take_all n cs (omega arith))

parse-grammar : (ms : List RowBurst) → All Fits ms → parse waiting (grammar ms) ≡ events ms
unfolding grammar
parse-grammar [] h = refl
parse-grammar (m ∷ ms) (fits, h) =
    parse-cols m.cols [] m.row (grammar ms)
    ∙ ap₂ ◌++◌ (ap (events_of m.row) (take_all 32 m.cols fits.few)) (parse-grammar ms h)

-- End to end: the encoded words of any sequence of bursts that fit the sensor, received by an
-- assembler between bursts, give exactly the events of these bursts in order.
pub receive-transmit :
    (ms : List RowBurst) (b : Burst)
    → All Fits ms
    → IsValid b
    → b.state ≡ expect_row
    → (receive b (transmit ms)).1 ≡ events ms
unfolding receive
receive-transmit ms b h v s =
    feed_all-parse (map decode_word (transmit ms)) b waiting v s
    ∙ ap (parse waiting) (tokens-transmit ms h)
    ∙ parse-grammar ms h
