-- ===== src/Resp/Tests.antt =====
-- Concrete runs of the codec.
use native.Mathlib.Omega.{arith}
use ratatosk.Prelude.{ℕ, ◌++◌, length, drop, min, ◌≡◌, refl, List, [], ◌∷◌, some}
use ratatosk.Prelude.Int.{pos, negsuc}
use ratatosk.Prelude.Eq.{bytes_eq}
use ratatosk.Resp.Crates.{plain_crates}
use ratatosk.Resp.Frame.{
  Frame, map, push, null, entry, end, versioned, bulk_string, array, nil, cons, integer,
  simple_string,
}
use ratatosk.Resp.Encode.{cr, lf, max_usize, encode, encode_for_version, resp2, resp3}
use ratatosk.Resp.Encode.Wire.{wire, project, resolve}
use ratatosk.Resp.Encode.Exact.{encode_for_version-wire, encode-wire}
use ratatosk.Resp.Length.{encoded_len, encoded_len_for_version}
use ratatosk.Resp.Length.Exact.{encoded_len_for_version-length, encoded_len-length}
use ratatosk.Resp.Line.{find_crlf}
use ratatosk.Resp.Line.Find.{shift, crlf_position, find_crlf_lem}
use ratatosk.Resp.Parse.RoundTrip.{parse-encode}
use ratatosk.Resp.Line.{pure}
use ratatosk.Resp.Parse.{parse}
use ratatosk.Prelude.Decimal.{i64_from_str}
use ratatosk.Resp.Segments.{new, pieces}
use ratatosk.Resp.Segments.Load.{weight}
use ratatosk.Resp.Segments.Exact.{Gives, pieces-encode_for_version}
use ratatosk.Prelude.{suc, ◌*◌}

-- "*2\r\n:7\r\n$1\r\nk\r\n" and one byte more
abbrev request : List ℕ
request =
    b'*' ∷ b'2' ∷ cr ∷ lf ∷ b':' ∷ b'7' ∷ cr ∷ lf ∷ b'$' ∷ b'1' ∷ cr ∷ lf ∷ b'k' ∷ cr ∷ lf ∷ b'!'
    ∷ []

run_request :
    parse plain_crates request
    ≡ (pure (array (cons (integer (pos 7)) (cons (bulk_string (some (b'k' ∷ []))) nil))), b'!' ∷ [])
unfolding parse plain_crates i64_from_str
run_request = refl

-- ECHO "a\x41" in an inline line
parse_inline :
    parse plain_crates (b'E' ∷ b' ' ∷ b'"' ∷ b'a' ∷ 92 ∷ b'x' ∷ b'4' ∷ b'1' ∷ b'"' ∷ lf ∷ []) ≡ (
      pure (
          array (
            cons
              (bulk_string (some (b'E' ∷ [])))
              (cons (bulk_string (some (b'a' ∷ b'A' ∷ []))) nil))),
      [],
    )
unfolding parse plain_crates i64_from_str
parse_inline = refl

encode_ok :
    encode plain_crates (simple_string (b'O' ∷ b'K' ∷ [])) ≡ b'+' ∷ b'O' ∷ b'K' ∷ cr ∷ lf ∷ []
unfolding encode bytes_eq plain_crates
encode_ok = refl

-- A map with a push inside it.
abbrev reply : Frame
reply =
    map (
      entry (bulk_string (some (b'k' ∷ []))) (push (cons (integer (negsuc 4)) (cons null nil))) end)

encode_for_version-wire_example :
    encode_for_version plain_crates reply resp2 ≡ wire (project reply resp2)
encode_for_version-wire_example =
    encode_for_version-wire plain_crates reply resp2 (omega arith, (tt, (tt, (tt, tt)), tt))

encode-wire_example :
    encode plain_crates (versioned (pos 3) reply) ≡ wire (resolve (versioned (pos 3) reply))
encode-wire_example =
    encode-wire plain_crates (versioned (pos 3) reply) (omega arith, (tt, (tt, (tt, tt)), tt))

encoded_len_for_version-length_example :
    encoded_len_for_version reply resp3
    ≡ min (length (encode_for_version plain_crates reply resp3)) max_usize
encoded_len_for_version-length_example =
    encoded_len_for_version-length plain_crates reply resp3 (omega arith, (tt, (tt, (tt, tt)), tt))

encoded_len-length_example : encoded_len reply ≡ min (length (encode plain_crates reply)) max_usize
encoded_len-length_example =
    encoded_len-length plain_crates reply (omega arith, (tt, (tt, (tt, tt)), tt))

find_crlf_lem_example : find_crlf plain_crates request 2 ≡ shift 2 (crlf_position (drop 2 request))
find_crlf_lem_example = find_crlf_lem plain_crates request 2

abbrev command : Frame
command = array (cons (bulk_string (some (b'k' ∷ []))) (cons (simple_string (b'O' ∷ [])) nil))

parse-encode_example :
    parse plain_crates (encode plain_crates command ++ (b'!' ∷ [])) ≡ (pure command, b'!' ∷ [])
parse-encode_example =
    parse-encode plain_crates command (b'!' ∷ [])
      (omega arith, (omega arith, ((omega arith, omega arith, tt), tt)))

pieces-encode_for_version_example :
    Gives
      (encode_for_version plain_crates reply resp2)
      (pieces plain_crates (suc (4 * weight reply)) (new reply resp2 3 1))
pieces-encode_for_version_example = pieces-encode_for_version plain_crates reply resp2 3 1
