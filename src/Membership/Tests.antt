-- ===== src/Membership/Tests.antt =====
-- The theorem on the membership contract at a concrete history.
use protorun.Prelude.{◌≡◌, [], ℕ}
use protorun.Transport.Host.{Host}
use protorun.Transport.HostSet.{contains}
use protorun.Hyparview.Node as Hyparview
use protorun.Hyparview.Node.Step.{run}
use protorun.Hyparview.Tests.{node_a, small, first, first-IsRandom, history}
use protorun.Plumtree.Node as Plumtree
use protorun.Membership.{follow, follow-run, ℕ}

follow-run_example :
    let s = run {W = ℕ} history (Hyparview.new node_a small 0) in
    let t = follow s.trace (Plumtree.new node_a 2) in
    ((h : Host) → contains h t.eager ≡ contains h s.active) × (t.lazy ≡ [])
follow-run_example = follow-run first-IsRandom node_a small 0 history 2
