-- ===== src/Revtr/Background/Meets.antt =====
-- Where a traceroute meets a path, in `AddBackgroundTRSegment` of
-- revtr/reverse_traceroute/revese_traceroute.go.
use reverse_traceroute_publi.Segment.{Segment}
use reverse_traceroute_publi.ReversePath.{ReversePath}
