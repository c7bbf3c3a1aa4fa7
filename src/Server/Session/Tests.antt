-- ===== src/Server/Session/Tests.antt =====
-- Sessions on concrete lines, and the properties there: two requests of one id, a line that is not
-- JSON, and the server's two answers.
use fde_assessment.Base.{
  ℕ, ◌+◌, ◌≡◌, refl, String, true, false, Option, none, some, List, [], ◌∷◌, if◌then◌else◌, All,
}
use fde_assessment.Base.Int.{pos}
use text.Mathlib.Text.{◌==◌ as str_eq}
use fde_assessment.Json.{Json, Fields}
use fde_assessment.Json
use fde_assessment.Server.Frames.{
  RequestId, int_id, Message, unparsed, request, notification, Frame, reply,
}
use fde_assessment.Server.Drain.{wait_idle, get_count}
use fde_assessment.Server.Session.{
  Lines, Session, new_session, pump_message, tracked_send, Run, start, arrive, act, answer,
}
use fde_assessment.Server.Session.Ledger.{Run-ledger, drained_answers_each}
use fde_assessment.Server.Session.Counted.{answers, owed, occurs}
use fde_assessment.Server.Session.Pairing.{
  Reader, new_reader, read_line, pump_next, Interleaving, reads, takes, IsPaired,
  taken_with_its_line,
}
use fde_assessment.Server.Session.Pairing
use fde_assessment.Server.Session.Screened.{IsScreened, inbound-IsScreened}

abbrev toy : Lines ℕ
toy = record {
  loads = λ line.
      if str_eq line "{"
      then none
      else some (Json.obj (Json.field "id" (Json.int (pos 1)) Json.end));
  is_blank = λ line. str_eq line "";
}

abbrev list_tools : Message ℕ
list_tools = request (int_id (pos 1)) "tools/list" none

abbrev answered_ok : Frame ℕ
answered_ok = reply (int_id (pos 1)) Json.null

abbrev two_asked : Session ℕ
two_asked = pump_message toy "a" list_tools (pump_message toy "b" list_tools new_session)

abbrev one_left : Session ℕ
one_left = tracked_send answered_ok (record two_asked { handling = int_id (pos 1) ∷ [] })

abbrev with_bad_line : Session ℕ
with_bad_line = pump_message toy "{" unparsed one_left

abbrev all_answered : Session ℕ
all_answered = tracked_send answered_ok (record with_bad_line { handling = [] })

abbrev log : List (String × Message ℕ)
log = ("{", unparsed) ∷ ("a", list_tools) ∷ ("b", list_tools) ∷ []

run : Run toy log with_bad_line
unfolding pump_message
run = arrive "{" unparsed (
    act (arrive "a" list_tools (arrive "b" list_tools start))
      (answer [] (int_id (pos 1) ∷ []) (int_id (pos 1)) answered_ok refl refl refl))

finished_run : Run toy log all_answered
unfolding pump_message tracked_send
finished_run = act run (answer [] [] (int_id (pos 1)) answered_ok refl refl refl)

still_waiting : wait_idle with_bad_line.tracker true ≡ false
unfolding pump_message tracked_send wait_idle
still_waiting = refl

Run-ledger_example :
    ((k : Option RequestId)
      → answers k with_bad_line.wire + occurs k with_bad_line.handling ≡ owed toy k log)
    × ((k : RequestId)
        → get_count k with_bad_line.tracker.pending ≡ occurs (some k) with_bad_line.handling)
    × (with_bad_line.tracker.idle ≡ true → with_bad_line.handling ≡ [])
Run-ledger_example = Run-ledger toy run

idle_at_last : wait_idle all_answered.tracker false ≡ true
unfolding pump_message tracked_send wait_idle
idle_at_last = refl

drained_answers_each_example :
    answers (some (int_id (pos 1))) all_answered.wire ≡ owed toy (some (int_id (pos 1))) log
drained_answers_each_example =
    drained_answers_each toy finished_run idle_at_last (some (int_id (pos 1)))

abbrev made : String → Message ℕ
made line = if str_eq line "{" then unparsed else notification line none

taken_with_its_line_example :
    IsPaired made
      ("{" ∷ "a" ∷ [])
      (pump_next made (read_line made "a" (read_line made "{" (new_reader made))))
taken_with_its_line_example = taken_with_its_line made (takes (reads "a" (reads "{" Pairing.start)))

inbound-IsScreened_example : All IsScreened with_bad_line.inbound
inbound-IsScreened_example = inbound-IsScreened toy run
