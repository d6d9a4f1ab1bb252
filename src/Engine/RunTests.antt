-- ===== src/Engine/RunTests.antt =====
-- Runs of the loop of internal/engine/session.go in memory: one answer, and a provider that calls a tool forever.
use coragent.Base.{
  ℕ, zero, suc, ◌+◌, Option, none, some, List, [], ◌∷◌, Bytes, codes, ◌≡◌, refl, true, false,
}
use coragent.Base.Int.{ℤ, pos}
use coragent.Errors.{ok}
use coragent.Transcript.{document}
use coragent.Dataproj.Lines.{StreamRedactor}
use coragent.Provider.{Response, stop, Request, transient}
use coragent.Action.{Broker}
use coragent.Engine.{Session, State, idle}
use coragent.Engine.Start.{initial}
use coragent.Dataproj.Stream.{redact_lines, lines_from}
use coragent.Engine.Retry.{Streamed}
use coragent.Engine.Deltas.{Emits, stream-redact_lines}
use coragent.Engine.Stream.{stream_chunks, finish_stream, Delivery, replied, refused}
use coragent.Engine.Run.{World, run}
use coragent.Engine.Termination.{run-ends, IsOver}

abbrev plain : StreamRedactor
plain = record {
  lines = record {
    detector = [];
    find_begin = λ s. none;
    find_end = λ s. none;
    in_private_key = false;
  };
  pending = [];
}

abbrev no_tools : Broker
no_tools = record {
  tools = [];
  project_text = λ s. record { content = s; redacted_count = 0 };
  raw = document;
  short_digest = λ s. s;
  quote = λ s. s;
}

abbrev world : (ℕ → ℕ → Request → Delivery) → World
world deliver = record {
  assembler = none;
  catalog = [];
  broker = no_tools;
  unmarshals = λ d. true;
  project_text = λ s. s;
  redactor = plain;
  deliver = deliver;
  jitter = λ n retry delay. pos delay;
  sleep = λ n retry delay. ok tt;
  done_before = λ n. false;
  done_answered = λ n. false;
  done_at_call = λ n i. false;
  done_after = λ n. false;
}

-- A failure that may be retried, and then an answer in two chunks.
abbrev greeting : ℕ → ℕ → Request → Delivery
greeting n zero req = record {
  chunks = [];
  reply = refused (record { class = transient; retry_after = pos 0 });
  context_done = false;
}
greeting n (suc retry) req = record {
  chunks = codes "he" ∷ codes "llo" ∷ [];
  reply = replied (record { text = codes "hello"; calls = []; reason = stop });
  context_done = false;
}

abbrev at_rest : Session
at_rest = initial (codes "s") [] (λ p. false) (λ n. n + 5) none

abbrev state_of : Option Session → Option State
state_of none = none
state_of (some s) = some s.state

run_test : state_of (run (world greeting) (codes "run-1") (codes "hi") at_rest) ≡ some idle
unfolding run initial coragent.Store.Session.reserved coragent.Base.Dict.get coragent.Base.Dict.put
    coragent.Base.same coragent.Base.Int.◌-ℤ◌ coragent.Event.new_event coragent.Dataproj.redact
    coragent.Transcript.new_record coragent.Transcript.validate
run_test = refl

run-ends_example :
    (t : Session) × (run (world greeting) (codes "run-1") (codes "hi") at_rest ≡ some t)
    × IsOver (codes "run-1") (world greeting) (codes "hi") t
run-ends_example = run-ends (codes "run-1") (world greeting) (codes "hi") at_rest

abbrev two_lines : Response
two_lines = record { text = codes "he\nllo"; calls = []; reason = stop }

abbrev streamed : Streamed
streamed = record { redactor = record plain { pending = codes "llo" }; text = codes "he\n" }

-- The session once the chunks and the end of the stream are out.
abbrev done : Session
done =
    let chunks = codes "he\nl" ∷ codes "lo" ∷ [] in
    let mid =
      stream_chunks (codes "run-1") (record { redactor = plain; text = [] }) chunks at_rest in
    (finish_stream (codes "run-1") two_lines streamed mid.1).1

stream-redact_lines_example :
    let safe = redact_lines plain.lines (lines_from [] (codes "he\nllo")) in
    Emits at_rest done safe × (codes "he\nllo" ≡ safe)
unfolding stream_chunks finish_stream coragent.Dataproj.redact coragent.Event.new_event initial
stream-redact_lines_example =
    stream-redact_lines (codes "run-1") plain (codes "he\nl" ∷ codes "lo" ∷ []) two_lines two_lines
      streamed (codes "he\nllo") at_rest _ done tt refl refl
