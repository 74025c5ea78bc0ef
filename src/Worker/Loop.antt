-- ===== src/Worker/Loop.antt =====
-- worker.rs: the echo loop, one pass after the other.
use wsblast.Common.{
  ℕ, zero, suc, ◌-◌, Bool, false, not, ◌&&◌, Option, none, some, List, [], ◌∷◌, codes,
  if◌then◌else◌,
}
use wsblast.SocketIo.Frame.{Frame, close}
use wsblast.Metrics.{timeout, unexpected_close, check_failed, attempt, sent_message, Recorders}
use wsblast.Metrics.Methods.{
  record_error, record_message_sent, record_message_recv, record_response_time,
  record_unsolicited_frames, record_chaos_delayed, record_chaos_dropped, record_chaos_corrupted,
  record_chaos_read_pause, record_chaos_close,
}
use wsblast.Worker.{message_byte_len, writing, categorize_session_error}
use wsblast.Worker.Schedule.{shift, restart_after_pause, response_time}
use wsblast.Worker.Echo.{
  Sending, written, stopped, refused, Pass, EchoConfig, Session, Exit, goes_on, exits, ReplyResult,
  reply, server_close, pending, fails, Awaited, session_end, await_reply, pings_of,
  stops_before_slot, due_of, later, writes, closes_run, reschedules, records, next_request,
}

module _ {L I : Type 0} (recorders : Recorders L I) (c : EchoConfig) where
  -- `apply_think_time` and `restart_after_pause`
  unfoldable pub think : Pass → Session L I → Session L I × Exit
  unfolding restart_after_pause
  think p s =
      if c.thinks && p.stops_thinking
      then closes_run s
      else if c.thinks
      then (reschedules (restart_after_pause p.now) s, goes_on)
      else (s, goes_on)

  unfoldable pub pause_read : Pass → Option ℕ → Session L I → Session L I × Exit
  unfolding think shift
  pause_read p none s = think p s
  pause_read p (some pause) s =
      let s' = records (record_chaos_read_pause recorders) s in
      if p.stops_pause then closes_run s' else think p (reschedules (shift pause) s')

  -- As the echo loop calls it, without a check and captures of an action.
  unfoldable pub check_reply : Frame → Session L I → Session L I
  check_reply frame s =
      if c.passes frame then s else records (record_error recorders check_failed sent_message) s

  -- The response time of a paced session that does not think.
  unfoldable pub respond : Pass → Option ℕ → Session L I → Session L I
  unfolding response_time
  respond p none s = s
  respond p (some due) s =
      if c.thinks
      then s
      else records
          (record_response_time recorders (response_time due p.sent_at (p.received_at - p.sent_at)))
          s

  -- `chaos_close`, where chaos closes the connection.
  unfoldable pub close_or_next : Pass → Option Bool → Session L I → Session L I × Exit
  unfolding next_request pause_read
  close_or_next p none s = pause_read p p.read_pause (next_request s)
  close_or_next p (some graceful) s =
      let s' = records (record_chaos_close recorders) s in
      (
        if graceful then writes (close (some (codes "wsblast chaos close")) ∷ []) s' else s',
        exits (session_end p.stops_last),
      )

  unfoldable pub answered : Pass → Bool → Option ℕ → Frame → Session L I → Session L I × Exit
  unfolding check_reply respond close_or_next message_byte_len
  answered p corrupted due frame s =
      let rtt = p.received_at - p.sent_at in
      let received =
        records (record_message_recv recorders (message_byte_len frame) (some rtt)) s in
      let checked = if corrupted then received else check_reply frame received in
      close_or_next p p.closes (respond p due checked)

  unfoldable pub handle_reply :
      Pass → Bool → Option ℕ → ReplyResult → Session L I → Session L I × Exit
  unfolding answered
  handle_reply p corrupted due (reply frame) s = answered p corrupted due frame s
  handle_reply p corrupted due server_close s = (s, exits (session_end p.stops_last))
  handle_reply p corrupted due (fails category) s =
      (records (record_error recorders category sent_message) s, exits (session_end p.stops_last))
  handle_reply p corrupted due pending s =
      let category = if p.times_out then timeout else unexpected_close in
      (records (record_error recorders category sent_message) s, exits (session_end p.stops_last))

  unfoldable pub wait_reply : Pass → Bool → Option ℕ → Awaited → Session L I → Session L I × Exit
  unfolding handle_reply
  wait_reply p corrupted due a s =
      let s' = records (record_unsolicited_frames recorders a.unsolicited) (writes a.pongs s) in
      if p.stops_reply then closes_run s' else handle_reply p corrupted due a.result s'

  unfoldable pub send_frame :
      Pass → Bool → Option ℕ → Frame → Sending → Session L I → Session L I × Exit
  unfolding await_reply wait_reply message_byte_len categorize_session_error
  send_frame p corrupted due frame stopped s = closes_run s
  send_frame p corrupted due frame (refused e) s = (
    records (record_error recorders (categorize_session_error e writing) attempt) s,
    exits (session_end p.stops_last),
  )
  send_frame p corrupted due frame written s =
      wait_reply p corrupted due
        (await_reply (λ got. c.matched corrupted frame got s.seq) p.arrivals)
        (records (record_message_sent recorders (message_byte_len frame)) (writes (frame ∷ []) s))

  -- `chaos_corrupt` and the send.
  unfoldable pub corrupt_and_send :
      Pass → Option ℕ → Frame × Bool → Session L I → Session L I × Exit
  unfolding send_frame
  corrupt_and_send p due (frame, changed) s =
      send_frame p changed due frame p.sending
        (if changed then records (record_chaos_corrupted recorders) s else s)

  unfoldable pub planned : Pass → Option ℕ → Session L I → Session L I × Exit
  unfolding corrupt_and_send
  planned p due s =
      corrupt_and_send p due
        (if p.plan.corrupts then p.corruption (c.render s.seq) else (c.render s.seq, false)) s

  unfoldable pub delayed_send : Pass → Option ℕ → ℕ → Session L I → Session L I × Exit
  unfolding planned shift
  delayed_send p due zero s = planned p due s
  delayed_send p due (suc d) s =
      let s' = records (record_chaos_delayed recorders) s in
      if p.stops_delay
      then closes_run s'
      else planned p (later (suc d) due) (reschedules (shift (suc d)) s')

  unfoldable pub claim_and_send : Pass → Option ℕ → Session L I → Session L I × Exit
  unfolding delayed_send next_request
  claim_and_send p due s =
      if not p.claimed
      then closes_run s
      else if p.plan.skips
      then (next_request (records (record_chaos_dropped recorders) s), goes_on)
      else delayed_send p due p.plan.delay s

  -- One pass of `'session: loop`.
  unfoldable pub echo_pass : Pass → Session L I → Session L I × Exit
  unfolding claim_and_send pings_of
  echo_pass p s =
      if p.stops_first
      then closes_run s
      else let pinged = writes (pings_of c p s.schedule) s in
        if stops_before_slot p s.schedule
        then closes_run pinged
        else claim_and_send p (due_of s.schedule) pinged

  abbrev pub continues :
      (Session L I → Session L I × Exit) → Session L I × Exit → Session L I × Exit
  continues rest (s, goes_on) = rest s
  continues rest (s, exits end) = (s, exits end)

  unfoldable pub echo_run : List Pass → Session L I → Session L I × Exit
  unfolding echo_pass
  echo_run [] s = (s, goes_on)
  echo_run (p ∷ passes) s = continues (λ t. echo_run passes t) (echo_pass p s)
