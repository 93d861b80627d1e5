-- ===== src/ServerStreams/Stream.antt =====
-- class ServerStream (libs/gateway/server_stream.h, libs/gateway/server_stream.cpp): a buffer that is
-- tied to the library's choice of a channel to the server. A method forwards to the buffer.
use mathlib.Core.List.{append-nil, append_assoc}
use aether_gateway.Prelude.{ℕ, ◌≡◌, ◌∙◌, sym, ap, List, [], ◌∷◌, ◌++◌}
use aether_gateway.Aether.{DataBuffer, LinkState}
use aether_gateway.Aether.Servers.{Server}
use aether_gateway.Aether.BufferStream.{BufferStream}

module _ (bs : BufferStream) where
  record ServerStream : Type 0 where
    -- The server of the ChannelManager, and the ChannelSelectStream.
    pub server : Server
    pub channel_select_stream : ℕ
    pub buffer_stream : bs.B

  unfoldable new_server_stream : Server → ℕ → ServerStream
  new_server_stream server channels = record {
    server = server;
    channel_select_stream = channels;
    buffer_stream = bs.tie channels bs.empty;
  }

  unfoldable write_to_server : DataBuffer → ServerStream → ServerStream
  write_to_server d s = record s { buffer_stream = bs.write d s.buffer_stream }

  unfoldable restream_server : ServerStream → ServerStream
  restream_server s = record s { buffer_stream = bs.restream s.buffer_stream }

  unfoldable stream_link : ServerStream → LinkState
  stream_link s = bs.link_state s.buffer_stream

  -- The calls of a stream's user.
  data StreamCall : Type 0 where
    write_call : DataBuffer → StreamCall
    restream_call : StreamCall

  unfoldable run_calls : List StreamCall → ServerStream → ServerStream
  unfolding write_to_server restream_server
  run_calls [] s = s
  run_calls (write_call d ∷ calls) s = run_calls calls (write_to_server d s)
  run_calls (restream_call ∷ calls) s = run_calls calls (restream_server s)

  abbrev payloads : List StreamCall → List DataBuffer
  payloads [] = []
  payloads (write_call d ∷ calls) = d ∷ payloads calls
  payloads (restream_call ∷ calls) = payloads calls

  written-run_calls :
      (calls : List StreamCall) (s : ServerStream)
      → bs.written (run_calls calls s).buffer_stream ≡ bs.written s.buffer_stream ++ payloads calls
  unfolding run_calls
  written-run_calls [] s = sym (append-nil (bs.written s.buffer_stream))
  written-run_calls (write_call d ∷ calls) s =
      written-run_calls calls (write_to_server d s)
      ∙ ap (λ l. l ++ payloads calls) (bs.written-write d s.buffer_stream)
      ∙ append_assoc (bs.written s.buffer_stream) (d ∷ []) (payloads calls)
  written-run_calls (restream_call ∷ calls) s =
      written-run_calls calls (restream_server s)
      ∙ ap (λ l. l ++ payloads calls) (bs.written-restream s.buffer_stream)

  -- A new ServerStream passes on to its buffer what was written to it, each once and in order,
  -- whenever it was restreamed in between.
  written-new_server_stream :
      (server : Server) (channels : ℕ) (calls : List StreamCall)
      → bs.written (run_calls calls (new_server_stream server channels)).buffer_stream
        ≡ payloads calls
  unfolding new_server_stream
  written-new_server_stream server channels calls =
      written-run_calls calls (new_server_stream server channels)
      ∙ ap (λ l. l ++ payloads calls) (bs.written-tie channels bs.empty ∙ bs.written-empty)
