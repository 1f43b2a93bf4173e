-- ===== src/Fcgi/Completion/Streams.antt =====
-- What transfer_status does with the output of a response that is streamed.
use tube.Common.{ℕ, suc, ◌<◌, true, lt→ltb, ◌≡◌, refl, ap, subst, sym}
use tube.Common.Int.{pos}
use tube.Core.Stream.{append_buffer}
use tube.Fcgi.Completion.{
  read_fcgi, continued, is_zero, is_minus_one, ContentParser, Completion, remove_fd_with_timer,
  task_buffer_limit, stream_write_back,
}
use tube.Fcgi.Completion.Transfer.{transfer_from, transfer_read_fcgi, transfer_status}

module _ (junk : ℕ) {P : Type 0} (parser : ContentParser P) where
  -- The output goes behind what the connection has to send, and stays in the output buffer too.
  abbrev pub Streams : Completion P → Completion P → Type 0
  Streams s t =
      (t.cont.status ≡ continued)
      × (t.written_back ≡ suc s.written_back)
      × (t.cont.output_buffer ≡ s.cont.output_buffer)
      × (t.cont.content_parser ≡ s.cont.content_parser)
      × (t.out_stream ≡ append_buffer s.cont.output_buffer s.out_stream)

  pub transfer_status-Streams :
      (s : Completion P) (task_len : ℕ)
      → s.cont.status ≡ read_fcgi
      → s.cont.task_len ≡ pos (suc task_len)
      → parser.is_done s.cont.content_parser ≡ true
      → parser.is_streaming s.cont.content_parser ≡ true
      → task_buffer_limit < s.cont.output_buffer.size
      → Streams s (transfer_status junk parser true true s)
  unfolding transfer_status transfer_from transfer_read_fcgi stream_write_back remove_fd_with_timer
  transfer_status-Streams s task_len reading more done streams long =
      subst (λ st. Streams s (transfer_from junk parser st true true s)) (sym reading)
        (rw
          (
            done,
            ap is_minus_one more,
            ap is_zero more,
            streams,
            lt→ltb task_buffer_limit s.cont.output_buffer.size long,
          )
          (refl, refl, refl, refl, refl))
