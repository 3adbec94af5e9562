-- ===== src/Kvstore/DefaultServer.antt =====
-- `DefaultUpdateServer` of kvstore/handles/basic_server.hpp: a server without consistency control.
use flexps_paper_version.Common.{
  ◌%◌, ◌<◌, ◌≡◌, refl, Bool, List, Result, ok, err, failed_assert, ◌>>=◌, arith, ◌==◌, ne→==_false,
  if◌then◌else◌,
}
use flexps_paper_version.Kvstore.Messages.{
  Handle, Request, Reply, init_cmd, consistency_control_off_magic, uncontrolled,
}
use flexps_paper_version.Kvstore.Answers.{IsPlain, uncontrolled_total}

pub record DefaultUpdateServer (Store : Type 0) : Type 0 where
  pub store : Store
  pub is_assign : Bool

module _ (h : Handle) where
  open h use {Bin, Store, Pairs}

  -- `assert(cmd != 4)`, and then as a request that bypasses consistency control.
  unfoldable pub default_process :
      Request Bin
      → DefaultUpdateServer Store
      → Result (DefaultUpdateServer Store × List (Reply Pairs))
  default_process r s =
      if r.cmd % consistency_control_off_magic == init_cmd
      then err failed_assert
      else (uncontrolled h s.is_assign r s.store >>= λ done.
          ok (record s { store = done.0 }, done.1))

  default_process-eq-ok :
      (r : Request Bin) (s : DefaultUpdateServer Store)
      → r.cmd % consistency_control_off_magic < 4
      → IsPlain h r
      → (o : DefaultUpdateServer Store × List (Reply Pairs)) × (default_process r s ≡ ok o)
  unfolding default_process
  default_process-eq-ok r s known complete =
      let (done, e) = uncontrolled_total h s.is_assign r s.store known complete in
      rw (ne→==_false (r.cmd % consistency_control_off_magic) init_cmd (omega arith), e) (_, refl)
