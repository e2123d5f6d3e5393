-- ===== src/Codec/Json/Laws.antt =====
-- src/codec/json.rs behind the codec of src/codec/line.rs: typed messages as lines of JSON.
use rs_netty.Common.{
  ◌≡◌, ◌≢◌, refl, ap, ◌∙◌, ◌≤◌, false, true, Option, some, List, [], ◌∷◌, length, All, map, arith,
}
use rs_netty.Common.Bytes.{Bytes}
use rs_netty.Error.{Result, Message, ok}
use rs_netty.Utf8.{is_utf8}
use rs_netty.Context.{Done, done, StreamOutboxCommand}
use rs_netty.Context
use rs_netty.Pipeline.{Flow, next}
use rs_netty.Pipeline.Runtime.{Sending, Sink, run_commands, encode_outbound}
use rs_netty.Codec.Framing.{Trace, pending, failed, frame, stuck, concat, read_all, reads}
use rs_netty.Codec.Framing.Sent.{encode_all, sent}
use rs_netty.Codec.Line
use rs_netty.Codec.Line.{LineCodec, ends_with}
use rs_netty.Codec.Line.Laws.{IsLine, lines_arrive}
use rs_netty.Codec.Json.{JsonEncode, decode_json, read, write}

-- Bytes above the control characters hold no line end.
printable_no_newline : (text : Bytes) → All (λ b. 32 ≤ b) text → All (λ b. b ≢ 10) text
printable_no_newline [] h = tt
printable_no_newline (b ∷ bs) h = (omega (arith, h.0), printable_no_newline bs h.1)

printable_no_return : (text : Bytes) → All (λ b. 32 ≤ b) text → ends_with 13 text ≡ false
unfolding ends_with
printable_no_return [] h = refl
printable_no_return (b ∷ []) h = ground (arith, h.0)
printable_no_return (b ∷ d ∷ bs) h = printable_no_return (d ∷ bs) h.1

-- The encoder of a line codec for the outbox, which keeps its state.
abbrev pub encode_line : LineCodec → Bytes → Bytes → Done × LineCodec × Bytes
encode_line self item dst = let (result, dst') = Line.encode self item dst in (result, self, dst')

module _ {T : Type 0} (to_string : T → Option Bytes) (from_slice : Bytes → Option T) where
  -- Of a JSON library: a value is printed compactly as UTF-8 without control characters, and parsed
  -- back from it.
  abbrev pub IsJson : Type 0
  IsJson =
      (value : T) (text : Bytes)
      → to_string value ≡ some text
      → (from_slice text ≡ some value) × (is_utf8 text ≡ true) × All (λ b. 32 ≤ b) text

  -- The value can be printed, within the limit of a line.
  abbrev pub IsPrintable : LineCodec → T → Type 0
  IsPrintable codec value =
      (text : Bytes) × (to_string value ≡ some text) × (length text ≤ codec.max_line_len)

  texts : (codec : LineCodec) (msgs : List T) → All (IsPrintable codec) msgs → List Bytes
  texts codec [] h = []
  texts codec (m ∷ ms) h = h.0.0 ∷ texts codec ms h.1

  texts-IsLine :
      (codec : LineCodec) (msgs : List T) (h : All (IsPrintable codec) msgs)
      → IsJson
      → All (IsLine codec) (texts codec msgs h)
  unfolding texts
  texts-IsLine codec [] h json = tt
  texts-IsLine codec (m ∷ ms) h json =
      let (text, prints, fits) = h.0 in
      let (_, utf8, printable) = json m text prints in
      (
        (utf8, printable_no_newline text printable, printable_no_return text printable, fits),
        texts-IsLine codec ms h.1 json,
      )

  -- The outbound side of `codec(LineCodec)` with `outbound(JsonEncode)`, for a socket.
  abbrev pub json_lines :
      {N : Type 0} → (N → Bytes → Option Message × N) → Sending LineCodec JsonEncode N T Bytes
  json_lines write_all = record {
    encode = encode_line;
    process = write to_string;
    write_all = write_all;
  }

  abbrev pub writes_of : List T → List (StreamOutboxCommand T)
  writes_of msgs = map Context.write msgs

  -- Each frame goes through the stage `JsonDecode`.
  abbrev pub received : Trace LineCodec Bytes → Trace LineCodec (Result (Flow T))
  received (pending s buf) = pending s buf
  received (failed e) = failed e
  received (frame text t) = frame (read from_slice tt text).0 (received t)
  received stuck = stuck

  received-sent :
      (codec : LineCodec) (msgs : List T) (h : All (IsPrintable codec) msgs)
      → IsJson
      → received (sent codec (texts codec msgs h)) ≡ sent codec (map (λ m. ok (next m)) msgs)
  unfolding texts read decode_json
  received-sent codec [] h json = refl
  received-sent codec (m ∷ ms) h json =
      rw ((json m h.0.0 h.0.1).0) (ap (frame (ok (next m))) (received-sent codec ms h.1 json))

  module _ {N : Type 0} (write_all : N → Bytes → Option Message × N) where
    commands-texts :
        (codec : LineCodec) (msgs : List T) (h : All (IsPrintable codec) msgs)
        (s : Sink LineCodec JsonEncode N)
        → let drained = run_commands (json_lines write_all) (writes_of msgs) [] s in
          (drained.0 ≡ done)
          × (drained.2.wire.write_buf
              ≡ encode_all Line.encode codec (texts codec msgs h) s.wire.write_buf)
    unfolding run_commands encode_outbound write texts Line.encode
    commands-texts codec [] h s = (refl, refl)
    commands-texts codec (m ∷ ms) h s = rw (h.0.1) (commands-texts codec ms h.1 _)

    -- For a JSON library with its laws and a socket: an outbox with messages that can be printed within
    -- the limit of a line is drained without an error into an empty buffer. When the bytes of this
    -- buffer arrive in any chunks, the line codec and `JsonDecode` give the same messages, in the same
    -- order, with nothing left over.
    pub json_messages_arrive :
        (codec : LineCodec) (msgs : List T) (chunks : List Bytes) (s : Sink LineCodec JsonEncode N)
        → IsJson
        → All (IsPrintable codec) msgs
        → s.wire.write_buf ≡ []
        → concat chunks
          ≡ (run_commands (json_lines write_all) (writes_of msgs) [] s).2.wire.write_buf
        → ((run_commands (json_lines write_all) (writes_of msgs) [] s).0 ≡ done)
          × (received (reads Line.decode (read_all Line.decode codec []) chunks)
              ≡ sent codec (map (λ m. ok (next m)) msgs))
    json_messages_arrive codec msgs chunks s json h empty e =
        let (drains, buffered) = commands-texts codec msgs h s in
        (
          drains,
          ap received (
                lines_arrive codec (texts codec msgs h) chunks (texts-IsLine codec msgs h json)
                  (e ∙ buffered ∙ ap (encode_all Line.encode codec (texts codec msgs h)) empty))
              ∙ received-sent codec msgs h json,
        )
