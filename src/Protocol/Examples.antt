-- ===== src/Protocol/Examples.antt =====
-- The theorems on internal/protocol at concrete streams.
use ws_tunnel.Prelude.{
  ℕ, zero, suc, ◌≡◌, ◌↔◌, refl, true, false, Option, none, some, List, [], ◌∷◌, ◌++◌, arith, str_eq,
}
use ws_tunnel.Prelude.Dict.{lookup}
use ws_tunnel.Protocol.Io.{
  Error, eof, unexpected_eof, ok, err, Source, fin, last, bytes, ending, weight,
}
use ws_tunnel.Protocol.Header.{codes, stream_header, stream_version, read_stream_header}
use ws_tunnel.Protocol.Header.Laws.{read_stream_header-stream_header, read_stream_header_cut}
use ws_tunnel.Protocol.Frame.{
  FrameReader, new_frame_reader, write_frame, new_frame_writer, write_frames, close_write, copy,
  frame_data,
}
use ws_tunnel.Protocol.Frame.Write.{Accepts}
use ws_tunnel.Protocol.Frame.RoundTrip.{copy-write_frames}
use ws_tunnel.Protocol.Frame.Cut.{copy_cut, copy_cut_after_type}
use ws_tunnel.Protocol.Frame.Ends.{copy_ends}
use ws_tunnel.Protocol.Message.{NodeConfig, equal, SameRest, SamePorts, NoEmptyRemote}
use ws_tunnel.Protocol.Message.Equal.{equal_iff}

-- A transport that keeps what it is sent.
abbrev pub to_list : List ℕ → List ℕ → Option Error × List ℕ
to_list bs w = (none, w ++ bs)

abbrev pub same : List ℕ → List ℕ
same w = w

pub to_list-Accepts : Accepts to_list same
to_list-Accepts bs w = (refl, refl)

abbrev wire : List ℕ
wire =
    (close_write to_list
      (write_frames to_list ((1 ∷ 2 ∷ []) ∷ (3 ∷ []) ∷ []) (new_frame_writer to_list []))).1.w

copy-write_frames_example :
    (g : FrameReader) × (copy
        (suc (weight (last (wire ++ []) eof)))
        32
        (new_frame_reader (last (wire ++ []) eof))
        []
      ≡ some (1 ∷ 2 ∷ 3 ∷ [], none, g))
    × (bytes g.r ≡ [])
    × (g.at_eof ≡ true)
copy-write_frames_example =
    copy-write_frames to_list same [] ((1 ∷ 2 ∷ []) ∷ (3 ∷ []) ∷ []) (last (wire ++ []) eof) []
      (suc (weight (last (wire ++ []) eof))) 32 to_list-Accepts refl
      (omega arith, (omega arith, tt)) refl (omega arith) (omega arith)

-- Three bytes of a frame are awaited, and one comes.
abbrev cut_reader : FrameReader
cut_reader = record { r = last (5 ∷ []) eof; remain = 3; at_eof = false }

copy_cut_example :
    (g : FrameReader) × (copy 9 4 cut_reader [] ≡ some (5 ∷ [], some unexpected_eof, g))
copy_cut_example =
    copy_cut 9 4 cut_reader [] (omega arith) (omega arith)
      (record { live = refl; short = omega arith; ends = refl })

copy_cut_after_type_example :
    (g : FrameReader) × (copy (suc 2) 4 (new_frame_reader (last (frame_data ∷ []) eof)) []
      ≡ some ([], none, g))
    × (g.at_eof ≡ false)
copy_cut_after_type_example = copy_cut_after_type 2 4 (last (frame_data ∷ []) eof) refl refl

zeros : ℕ → List ℕ
zeros zero = []
zeros (suc n) = 0 ∷ zeros n

-- One write of a byte more than 1 MiB, on the wire.
abbrev long_wire : List ℕ
long_wire = (write_frame to_list (0 ∷ zeros 1048576) (new_frame_writer to_list [])).2.w

abbrev header_source : Source
header_source = last (stream_header 80 ++ (9 ∷ [])) eof

read_stream_header-stream_header_example :
    (u : Source) × (read_stream_header header_source ≡ (ok 80, u))
    × (bytes u ≡ 9 ∷ [])
    × (ending u ≡ eof)
read_stream_header-stream_header_example =
    read_stream_header-stream_header 80 header_source (9 ∷ []) (omega arith) (omega arith) refl

header_80 :
    (u : Source) × (read_stream_header header_source ≡ (ok 80, u))
    × (bytes u ≡ 9 ∷ [])
    × (ending u ≡ eof)
header_80 =
    read_stream_header-stream_header 80 header_source (9 ∷ []) (omega arith) (omega arith) refl

read_stream_header_cut_example :
    read_stream_header (last (stream_version ∷ []) eof) ≡ (err eof, fin eof)
read_stream_header_cut_example = read_stream_header_cut (last (stream_version ∷ []) eof) refl

abbrev one_port : NodeConfig
one_port = record {
  ports = (codes "7", codes "h:1") ∷ [];
  channels = 2;
  heartbeat = 1;
  dial_timeout = 1;
  max_streams_per_conn = 256;
}

one_port-NoEmptyRemote : NoEmptyRemote one_port.ports
unfolding lookup
one_port-NoEmptyRemote k e = ground (arith, e)

equal_iff_example :
    (equal (some one_port) (some one_port) ≡ true)
    ↔ (SameRest one_port one_port × SamePorts one_port.ports one_port.ports)
equal_iff_example = equal_iff one_port one_port (refl, tt) (refl, tt) one_port-NoEmptyRemote

-- A frame that announces three bytes, of which one comes.
abbrev short_reader : FrameReader
short_reader = record { r = last (0 ∷ 3 ∷ 7 ∷ []) eof; remain = 0; at_eof = false }

copy_ends_example :
    (bs : List ℕ) × (e : Option Error) × (g : FrameReader) × (copy 9 4 short_reader []
      ≡ some (bs, e, g))
copy_ends_example = copy_ends 9 4 short_reader [] (omega arith) (omega arith)
