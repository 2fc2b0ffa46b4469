-- ===== src/Resp/Parse/RoundTrip.antt =====
-- The parser of crates/ratatosk-resp/src/parse.rs reads back what the encoder writes.
use ratatosk.Prelude.{
  ℕ, ◌≡◌, refl, sym, ap₂, ◌∙◌, List, [], ◌++◌, length, take, append-nil, take-append_self,
  drop-append_self,
}
use ratatosk.Resp.Crates.{Crates}
use ratatosk.Resp.Encode.{encode}
use ratatosk.Resp.Encode.Wire.{wire}
use ratatosk.Resp.Encode.Exact.{encode-wire}
use ratatosk.Resp.Line.{pure}
use ratatosk.Resp.Frame.{Frame}
use ratatosk.Resp.Parse.{max_nesting_depth, parse}
use ratatosk.Resp.Parse.Readable.{IsReadable, resolve_readable}
use ratatosk.Resp.Parse.Describe.{frame_lem}
use ratatosk.Resp.Parse.Materialize.{materialize_lem}

parse-wire :
    (c : Crates) (f : Frame) (rest : List ℕ)
    → IsReadable f max_nesting_depth
    → parse c (wire f ++ rest) ≡ (pure f, rest)
unfolding parse
parse-wire c f rest r =
    rw (frame_lem c (wire f ++ rest) f max_nesting_depth 0 rest r refl, parse)
      (ap₂ (λ t u. (pure t, u))
        (materialize_lem f (take (length (wire f)) (wire f ++ rest)) max_nesting_depth 0 [] r
          (take-append_self (wire f) rest ∙ sym (append-nil (wire f))))
        (drop-append_self (wire f) rest))

-- What `encode` writes for a frame that the parser accepts, with any bytes behind it, is parsed to that
-- frame, and exactly those bytes stay in the buffer. A frame is accepted if it has no push, sequence or
-- versioned part, no CR or LF in a simple string or error, integers of 64 bits, and lengths and
-- nesting within the parser's limits.
pub parse-encode :
    (c : Crates) (f : Frame) (rest : List ℕ)
    → IsReadable f max_nesting_depth
    → parse c (encode c f ++ rest) ≡ (pure f, rest)
parse-encode c f rest r =
    let (e, s) = resolve_readable f max_nesting_depth r in
    rw (encode-wire c f s, e) (parse-wire c f rest r)
