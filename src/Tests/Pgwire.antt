-- ===== src/Tests/Pgwire.antt =====
-- The properties of the COPY parser and of a session's batch at concrete inputs.
use slateduck.Prelude.{◌*◌, ◌≤◌, ◌≡◌, refl, ◌↔◌, none, some, List, [], ◌∷◌, ◌++◌, arith}
use slateduck.Prelude.Bytes.{Bytes}
use slateduck.Core.Result.{ok, err}
use slateduck.Core.BigEndian.{be_bytes}
use slateduck.Core.Tags.{codes}
use slateduck.Pgwire.CopyParser.{
  parse_binary_copy_rows, Row, Parsed, CopyParseError, pgcopy_signature,
}
use slateduck.Pgwire.CopyParser.Termination.{parse_binary_copy_rows_total}
use slateduck.Pgwire.CopyParser.RoundTrip.{
  stream_bytes, rows_bytes, parse_binary_copy_rows-stream_bytes,
}
use slateduck.Pgwire.CopyParser.Truncation.{parse_binary_copy_rows_cut}
use slateduck.Pgwire.Session.{
  BufferedOp, insert_schema, new, push, take_ops, op_size, max_batch_size,
}
use slateduck.Pgwire.Session.Batch.{fresh, accepted, Reaches-take_ops}

abbrev rows : List Row
rows = (some (codes "ab") ∷ none ∷ some [] ∷ []) ∷ [] ∷ []

stream_example :
    parse_binary_copy_rows (stream_bytes 0 (codes "x") rows ++ (7 ∷ [])) ≡ some (ok rows)
stream_example =
    parse_binary_copy_rows-stream_bytes 0 (codes "x") rows (7 ∷ []) (omega arith)
      ((omega arith, (omega arith, (tt, (omega arith, tt)))), ((omega arith, tt), tt))

abbrev cut_stream : Bytes
cut_stream = pgcopy_signature ++ (0 ∷ 0 ∷ 0 ∷ 0 ∷ 0 ∷ 0 ∷ 0 ∷ 0 ∷ 255 ∷ [])

cut_example : (e : CopyParseError) × (parse_binary_copy_rows cut_stream ≡ some (err e))
cut_example =
    parse_binary_copy_rows_cut 0 [] [] cut_stream (255 ∷ []) (omega arith) tt
      (unfold stream_bytes rows_bytes be_bytes in refl) (omega arith)

total_example : (r : Parsed (List Row)) × (parse_binary_copy_rows cut_stream ≡ some r)
total_example = parse_binary_copy_rows_total cut_stream

abbrev first_op : BufferedOp
first_op = insert_schema (codes "main")

batch_example :
    ((take_ops (push 200 new first_op).1).0 ≡ first_op ∷ [])
    × (1 * op_size 200 ≤ max_batch_size)
    × ((op : BufferedOp)
        → ((push 200 (push 200 new first_op).1 op).0 ≡ ok tt) ↔ (2 * op_size 200 ≤ max_batch_size))
batch_example =
    Reaches-take_ops 200 (first_op ∷ []) (push 200 new first_op).1
      (accepted [] new first_op fresh (unfold push new op_size in refl))
