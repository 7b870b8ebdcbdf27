-- ===== src/Ata/Access.antt =====
-- A request that an access list does not accept is answered by an error and does nothing else.
use qaoed.Base.{
  ℕ, ◌≡◌, ◌≢◌, List, [], ◌∷◌, ◌++◌, Option, some, true, not, arith, done, ◌>>=◌, ◌==◌, get_elem?,
}
use qaoed.Acl.{AclHdr, acl_accept}
use qaoed.Acl.Match.{Decides, aclmatch_lem}
use qaoed.Wire.{AtaFrame, aoe_atahdr_size}
use qaoed.Conf.{Ifst, AoeDev}
use qaoed.Memory.{workdestroy}
use qaoed.Device.{Machine, ata, Sent, World, Setting, refused, stamp, xmit}
use qaoed.Device.Reply.{createpkt-some}
use qaoed.Ata.{is_read, is_write, win_identify, abrt_err, ata_error, check_access, process_ata}
use qaoed.Ata.Answer.{blank}

-- The access list that guards the command: the read list for reads and for identify, the write list
-- for writes.
pub data IsGuarded (dev : AoeDev) (command : ℕ) (acl : Option ℕ) : Type 0 where
  reads : is_read command ≡ true → acl ≡ dev.racl → IsGuarded dev command acl
  identifies : command ≡ win_identify → acl ≡ dev.racl → IsGuarded dev command acl
  writes : is_write command ≡ true → acl ≡ dev.wacl → IsGuarded dev command acl

pub refused-Decides :
    (st : Setting) (i r : ℕ) (a : AclHdr) (addr : List ℕ)
    → get_elem? st.acllist i ≡ some a
    → Decides a.defaultpolicy addr r a.acl
    → refused st (some i) addr ≡ done (not (r == acl_accept))
unfolding refused
refused-Decides st i r a addr e d = rw (e, (aclmatch_lem a addr r).1 d)

module _ (mc : Machine) (st : Setting) (dev : AoeDev) (request : AtaFrame) where
  check_access-IsGuarded :
      (acl : Option ℕ)
      → IsGuarded dev request.cmdstat acl
      → check_access mc st dev request ≡ refused st acl request.aoehdr.eth.h_source
  unfolding check_access
  check_access-IsGuarded acl (reads h e) = rw (h, e)
  check_access-IsGuarded acl (identifies h e) = rw (h, e)
  check_access-IsGuarded acl (writes h e) = ground arith

  -- The error that is sent: aborted, with no data.
  abbrev pub denial : ℕ → Ifst → Sent
  denial ifentry iface = record {
    ifentry = ifentry;
    frame =
        stamp iface.hwaddr (
          ata
            (record (blank mc st dev ifentry request) { err_feature = abrt_err; cmdstat = 0x41 }));
    len = aoe_atahdr_size;
  }

  -- If the list that guards the command decides anything but "accept" for the sender, the request is
  -- answered by an aborted command with no data, the file behind the device is not touched, and the
  -- work entry is released; nothing else happens.
  pub process_ata_denied :
      (wk ifentry i r : ℕ) (iface : Ifst) (a : AclHdr) (s : World mc.Disk)
      → IsGuarded dev request.cmdstat (some i)
      → get_elem? st.intlist ifentry ≡ some iface
      → get_elem? st.acllist i ≡ some a
      → Decides a.defaultpolicy request.aoehdr.eth.h_source r a.acl
      → r ≢ acl_accept
      → process_ata mc true st dev wk ifentry request s ≡ (
          workdestroy (some wk) s.mem >>= λ m.
          done (record s { mem = m; sent = s.sent ++ (denial ifentry iface ∷ []) }))
  unfolding process_ata ata_error xmit
  process_ata_denied wk ifentry i r iface a s g known list d other =
      let no_access : not (r == acl_accept) ≡ true = ground arith in
      rw (
        createpkt-some,
        check_access-IsGuarded (some i) g,
        refused-Decides st i r a request.aoehdr.eth.h_source list d,
        no_access,
        known,
      )
