-- ===== src/Ipc/Server/Tests.antt =====
-- A run of a connection with two requests, and the instance of the theorem there.
use uni_cloud_file_sync_thin.Prelude.{
  Text, text, ℕ, ◌+◌, none, some, List, [], ◌∷◌, ◌++◌, length, All, Result, ok, err, ◌≡◌, ◌≢◌, refl,
  arith, ◌==◌, true, false, if◌then◌else◌,
}
use uni_cloud_file_sync_thin.Ipc.Client.{IpcError, request, ping}
use uni_cloud_file_sync_thin.Ipc.Error.{display}
use uni_cloud_file_sync_thin.Ipc.Messages.{Request, Response}
use uni_cloud_file_sync_thin.Ipc.Server.{Handler, response_of, handle_connection}
use uni_cloud_file_sync_thin.Ipc.Server.Replies.{
  Lines, no_line, line_then, read_messages, answers, handle_connection-answers,
}
use uni_cloud_file_sync_thin.Ipc.Transport.{
  Bytes, Streams, Json, newline, read_message, write_message,
}
use uni_cloud_file_sync_thin.Ipc.Transport.Framing.{split_line, IsReliable, IsJson}

abbrev streams : Streams
streams = record {
  read_line = λ input. ok (split_line input);
  write_all = λ output bytes. ok (output ++ bytes);
  flush = λ output. ok output;
  trim_end = λ line. line;
}

reliable : IsReliable streams
reliable = record {
  read_line = λ input. refl;
  write_all = λ output bytes. refl;
  flush = λ output. refl;
}

request_text : Request → Result Text Bytes
request_text (Request.pause_sync none) = ok (1 ∷ [])
request_text (Request.resume_sync none) = ok (2 ∷ [])
request_text _ = err (text "no text")

request_of : Bytes → Result Text Request
request_of [] = err (text "no request")
request_of (c ∷ rest) =
    if c == 1
    then ok (Request.pause_sync none)
    else if c == 2
    then ok (Request.resume_sync none)
    else err (text "no request")

abbrev requests : Json Request
requests = record { to_string = request_text; from_str = request_of }

response_text : Response → Result Text Bytes
response_text Response.done = ok (3 ∷ [])
response_text _ = err (text "no text")

response_from : Bytes → Result Text Response
response_from [] = err (text "no response")
response_from (c ∷ rest) = if c == 3 then ok Response.done else err (text "no response")

abbrev responses : Json Response
responses = record { to_string = response_text; from_str = response_from }

ok_inj : {x y : Bytes} → ◌≡◌ {A = Result Text Bytes} (ok x) (ok y) → x ≡ y
ok_inj e = ground arith

request_laws : IsJson streams requests
unfolding request_text request_of
request_laws = record { one_line = one_line; read_back = read_back }
  where
    one_line : (a : Request) (line : Bytes) → request_text a ≡ ok line → All (λ c. c ≢ newline) line
    one_line (Request.pause_sync none) line e = rw (← ok_inj e) (omega arith, tt)
    one_line (Request.resume_sync none) line e = rw (← ok_inj e) (omega arith, tt)
    one_line _ line e = absurd (ground arith)

    read_back :
        (a : Request) (line : Bytes)
        → request_text a ≡ ok line
        → request_of (line ++ newline ∷ []) ≡ ok a
    read_back (Request.pause_sync none) line e = rw (← ok_inj e) refl
    read_back (Request.resume_sync none) line e = rw (← ok_inj e) refl
    read_back _ line e = absurd (ground arith)

response_laws : IsJson streams responses
unfolding response_text response_from
response_laws = record { one_line = one_line; read_back = read_back }
  where
    one_line :
        (a : Response) (line : Bytes) → response_text a ≡ ok line → All (λ c. c ≢ newline) line
    one_line Response.done line e = rw (← ok_inj e) (omega arith, tt)
    one_line _ line e = absurd (ground arith)

    read_back :
        (a : Response) (line : Bytes)
        → response_text a ≡ ok line
        → response_from (line ++ newline ∷ []) ≡ ok a
    read_back Response.done line e = rw (← ok_inj e) refl
    read_back _ line e = absurd (ground arith)

-- A handler that counts, and answers with done.
abbrev handle : Handler ℕ
handle message n = (ok Response.done, n + 1)

abbrev sent : List Request
sent = Request.pause_sync none ∷ Request.resume_sync none ∷ []

sent-Lines : Lines requests sent (1 ∷ 10 ∷ 2 ∷ 10 ∷ [])
unfolding request_text
sent-Lines =
    line_then (1 ∷ []) (record { text = refl; short = omega arith })
      (line_then (2 ∷ []) (record { text = refl; short = omega arith }) no_line)

replies-Lines :
    Lines responses (answers streams requests responses handle sent 0).0 (3 ∷ 10 ∷ 3 ∷ 10 ∷ [])
unfolding response_text answers response_of
replies-Lines =
    line_then (3 ∷ []) (record { text = refl; short = omega arith })
      (line_then (3 ∷ []) (record { text = refl; short = omega arith }) no_line)

program : Unit {0}
unfolding handle_connection read_messages answers response_of read_message write_message split_line
    request_text request_of response_text response_from display request ping
program = tt

-- A line that is not JSON is answered with an error, and the connection goes on.
run_malformed :
    (handle_connection streams requests
      (record { to_string = λ r. ok []; from_str = response_from })
      handle
      (none ∷ none ∷ none ∷ [])
      (record { input = 7 ∷ 10 ∷ 1 ∷ 10 ∷ []; output = []; state = 0 }))
    ≡ (some (ok tt), record { input = []; output = 10 ∷ 10 ∷ []; state = 1 })
unfolding program
run_malformed = refl

-- A response that comes after the timeout is read as the response to the next request.
run_late :
    (request streams requests responses false
      (Request.pause_sync none)
      (record { input = []; output = [] })).0
    ≡ err IpcError.daemon_unresponsive
unfolding program
run_late = refl

run_stale :
    (request streams requests responses true
      (Request.resume_sync none)
      (record { input = 3 ∷ 10 ∷ []; output = 1 ∷ 10 ∷ [] }))
    ≡ (ok Response.done, record { input = []; output = 1 ∷ 10 ∷ 2 ∷ 10 ∷ [] })
unfolding program
run_stale = refl

handle_connection-answers_example :
    (handle_connection streams requests responses handle
        (none ∷ none ∷ none ∷ [])
        (record { input = 1 ∷ 10 ∷ 2 ∷ 10 ∷ []; output = []; state = 0 })
      ≡ (
        some (ok tt),
        record {
          input = [];
          output = 3 ∷ 10 ∷ 3 ∷ 10 ∷ [];
          state = (answers streams requests responses handle sent 0).1;
        },
      ))
    × (read_messages streams responses
          (length (answers streams requests responses handle sent 0).0)
          (3 ∷ 10 ∷ 3 ∷ 10 ∷ [])
        ≡ ok (answers streams requests responses handle sent 0).0)
handle_connection-answers_example =
    handle_connection-answers streams reliable requests responses request_laws response_laws handle
      sent-Lines 0 (3 ∷ 10 ∷ 3 ∷ 10 ∷ []) replies-Lines
