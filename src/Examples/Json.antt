-- ===== src/Examples/Json.antt =====
-- src/codec/json.rs at concrete inputs: the JSON library at the type of Booleans.
use rs_netty.Common.{
  ◌≡◌, refl, sym, Bool, true, false, ◌&&◌, ◌==◌, if◌then◌else◌, Option, none, some, List, [], ◌∷◌,
  arith,
}
use rs_netty.Common.Bytes.{Bytes}
use rs_netty.Error.{Message, ok}
use rs_netty.Context.{done}
use rs_netty.Pipeline.{next}
use rs_netty.Pipeline.Runtime.{Sink, run_commands, encode_outbound}
use rs_netty.Utf8.{is_utf8}
use rs_netty.Codec.Framing.{reads, read_all, concat}
use rs_netty.Codec.Framing.Sent.{sent}
use rs_netty.Codec.Line
use rs_netty.Codec.Line.{LineCodec}
use rs_netty.Codec.Json.{JsonEncode, write}
use rs_netty.Codec.Json.Laws.{
  json_messages_arrive, json_lines, writes_of, received, IsJson, IsPrintable,
}

abbrev true_text : Bytes
true_text = 116 ∷ 114 ∷ 117 ∷ 101 ∷ []

abbrev false_text : Bytes
false_text = 102 ∷ 97 ∷ 108 ∷ 115 ∷ 101 ∷ []

abbrev bool_to_string : Bool → Option Bytes
bool_to_string true = some true_text
bool_to_string false = some false_text

abbrev same : Bytes → Bytes → Bool
same [] [] = true
same (x ∷ xs) (y ∷ ys) = (x == y) && same xs ys
same _ _ = false

abbrev bool_from_slice : Bytes → Option Bool
bool_from_slice text =
    if same text true_text then some true else if same text false_text then some false else none

some_inj : {a b : Bytes} → some a ≡ some b → a ≡ b
some_inj e = cc

bool-IsJson : IsJson bool_to_string bool_from_slice
unfolding is_utf8
bool-IsJson true text e =
    rw (sym (some_inj e))
      (refl, refl, (omega arith, (omega arith, (omega arith, (omega arith, tt)))))
bool-IsJson false text e =
    rw (sym (some_inj e))
      (refl, refl, (omega arith, (omega arith, (omega arith, (omega arith, (omega arith, tt))))))

-- A socket that accepts everything.
abbrev accepting : Bytes → Bytes → Option Message × Bytes
accepting socket bytes = (none, bytes)

abbrev quiet : Sink LineCodec JsonEncode Bytes
quiet = record {
  codec = Line.new;
  outbound = tt;
  wire = record { socket = []; write_buf = []; stats = none };
}

abbrev bool_chunks : List Bytes
bool_chunks = (116 ∷ 114 ∷ []) ∷ (117 ∷ 101 ∷ 10 ∷ 102 ∷ 97 ∷ []) ∷ (108 ∷ 115 ∷ 101 ∷ 10 ∷ []) ∷ []

true-IsPrintable : IsPrintable bool_to_string bool_from_slice Line.new true
unfolding Line.new
true-IsPrintable = (true_text, refl, omega arith)

false-IsPrintable : IsPrintable bool_to_string bool_from_slice Line.new false
unfolding Line.new
false-IsPrintable = (false_text, refl, omega arith)

bools_sent :
    concat bool_chunks
    ≡ (run_commands
        (json_lines bool_to_string bool_from_slice accepting)
        (writes_of bool_to_string bool_from_slice (true ∷ false ∷ []))
        []
        quiet).2.wire.write_buf
unfolding run_commands encode_outbound write Line.encode
bools_sent = refl

json_messages_arrive_example :
    ((run_commands
        (json_lines bool_to_string bool_from_slice accepting)
        (writes_of bool_to_string bool_from_slice (true ∷ false ∷ []))
        []
        quiet).0
      ≡ done)
    × (received bool_to_string bool_from_slice
          (reads Line.decode (read_all Line.decode Line.new []) bool_chunks)
        ≡ sent Line.new (ok (next true) ∷ ok (next false) ∷ []))
json_messages_arrive_example =
    json_messages_arrive bool_to_string bool_from_slice accepting Line.new (true ∷ false ∷ [])
      bool_chunks quiet bool-IsJson (true-IsPrintable, (false-IsPrintable, tt)) refl bools_sent
