-- ===== src/Ata/Answer.antt =====
-- Every ATA request is answered by one frame, and its work entry is released.
use qaoed.Base.{
  ℕ, suc, ◌+◌, ◌*◌, ◌≤◌, ◌<◌, ◌≡◌, refl, sym, subst, inl, inr, String, codes, List, [], ◌∷◌, ◌++◌,
  Option, none, some, Bool, true, false, arith, Outcome, done, if◌then◌else◌, Bool-cases, leb,
  length, take, get_elem?, ◌||◌, ◌==◌, not,
}
use qaoed.Acl.{AclHdr, aclmatch, acl_accept}
use qaoed.Wire.{AtaFrame, aoe_atahdr_size}
use qaoed.Conf.{Ifst, AoeDev}
use qaoed.Memory.{WorkEntry, Pkt}
use qaoed.Memory.Lifetime.{IsHeld, SameElse}
use qaoed.Network.Delivery.{Fate, workdestroy-Fate}
use qaoed.Device.{Machine, ata, identify, Sent, World, Setting, read_buffer, refused, xmit}
use qaoed.Device.Reply.{
  IsReplyTo, header_of, reply_header, createpkt-some, reply_header-IsReplyTo,
  error_header-IsReplyTo, Answers, xmit-Answers,
}
use qaoed.Ata.{
  is_read, is_write, win_identify, ready_stat, file_read, file_write, is_positive, read_reply,
  transfer_read, transfer_write, transfer, process_identify, ata_error, check_access, perform,
  process_ata, drive_id,
}

-- An access-list pointer is NULL or points to an access list.
abbrev pub IsAclPtr : Setting → Option ℕ → Type 0
IsAclPtr st none = Unit
IsAclPtr st (some a) = (acl : AclHdr) × (get_elem? st.acllist a ≡ some acl)

-- One frame has been sent in answer, and n others hold the packet still.
abbrev pub Replied :
    (mc : Machine)
    → Setting
    → AoeDev
    → ℕ
    → AtaFrame
    → ℕ
    → ℕ
    → ℕ
    → WorkEntry
    → Pkt
    → World mc.Disk
    → Type 0
Replied mc st dev ifentry request wk p n e k s =
    (s' : World mc.Disk) × (x : Sent) × (process_ata mc true st dev wk ifentry request s ≡ done s')
    × (s'.sent ≡ s.sent ++ (x ∷ []))
    × (x.ifentry ≡ ifentry)
    × IsReplyTo mc dev request.aoehdr (header_of x.frame)
    × Fate s'.mem wk p e k n
    × SameElse wk p s.mem s'.mem

-- What the start of a device establishes: its pointers lead somewhere.
pub record IsWired (st : Setting) (dev : AoeDev) (ifentry : ℕ) : Type 0 where
  pub iface : Ifst
  pub known : get_elem? st.intlist ifentry ≡ some iface
  pub racl : IsAclPtr st dev.racl
  pub wacl : IsAclPtr st dev.wacl
  pub name : String
  pub named : dev.devicename ≡ some name

pub refused-done :
    (st : Setting) (acl : Option ℕ) (addr : List ℕ)
    → IsAclPtr st acl
    → (b : Bool) × (refused st acl addr ≡ done b)
unfolding refused
refused-done st none addr h = (false, refl)
refused-done st (some a) addr (acl, e) = (not (aclmatch acl addr == acl_accept), rw e)

pub read_buffer-take :
    (n : ℕ) (buf : List ℕ) → n ≤ length buf → read_buffer n buf ≡ done (take n buf)
unfolding read_buffer
read_buffer-take n buf h = let e : leb n (length buf) ≡ true = ground arith in rw e

module _ (mc : Machine) (st : Setting) (dev : AoeDev) (ifentry : ℕ) (request : AtaFrame) where
  open mc use {Disk}

  -- The reply as `qaoed_processATA` begins it.
  abbrev pub blank : AtaFrame
  blank = record request {
    aoehdr = reply_header mc dev request.aoehdr;
    err_feature = 0;
    cmdstat = ready_stat;
    payload = [];
  }

  check_access-done :
      IsWired st dev ifentry → (b : Bool) × (check_access mc st dev request ≡ done b)
  unfolding check_access
  check_access-done w =
      elim (Bool-cases (is_read request.cmdstat || (request.cmdstat == win_identify))) [
        | inl reads ↦ rw reads (refused-done st dev.racl request.aoehdr.eth.h_source w.racl)
        | inr other ↦ elim (Bool-cases (is_write request.cmdstat)) [
          | inl writes ↦
              rw (other, writes) (refused-done st dev.wacl request.aoehdr.eth.h_source w.wacl)
          | inr neither ↦ rw (other, neither) (false, refl)
        ]
      ]

  module _ (byte : request.aoehdr.ver_flags < 256) (w : IsWired st dev ifentry) where
    good : (f : AtaFrame) → f.aoehdr ≡ blank.aoehdr → IsReplyTo mc dev request.aoehdr f.aoehdr
    good f e =
        subst (IsReplyTo mc dev request.aoehdr) (sym e)
          (reply_header-IsReplyTo mc dev request.aoehdr byte)

    sends :
        (f : AtaFrame) (len : ℕ) (s : World Disk)
        → IsReplyTo mc dev request.aoehdr f.aoehdr
        → Answers mc dev request.aoehdr ifentry s (xmit st ifentry (ata f) len s)
    sends f len s r = xmit-Answers mc dev request.aoehdr st ifentry w.iface (ata f) len s w.known r

    read_reply-IsReplyTo :
        (len : ℕ) (got : Option (List ℕ))
        → IsReplyTo mc dev request.aoehdr (read_reply mc len blank got).aoehdr
    unfolding read_reply
    read_reply-IsReplyTo len none =
        error_header-IsReplyTo mc dev request.aoehdr request.aoehdr.error byte
    read_reply-IsReplyTo len (some []) =
        error_header-IsReplyTo mc dev request.aoehdr request.aoehdr.error byte
    read_reply-IsReplyTo len (some (b ∷ bs)) = reply_header-IsReplyTo mc dev request.aoehdr byte

    -- From a world that differs in its file only.
    moved :
        {r : Outcome (World Disk)} (d : Disk) (s : World Disk)
        → Answers mc dev request.aoehdr ifentry (record s { disk = d }) r
        → Answers mc dev request.aoehdr ifentry s r
    moved d s a = record {
      after = a.after;
      frame = a.frame;
      len = a.len;
      returns = a.returns;
      mem = a.mem;
      sent = a.sent;
      reply = a.reply;
    }

    ata_error-Answers :
        (s : World Disk) → Answers mc dev request.aoehdr ifentry s (ata_error mc st ifentry blank s)
    unfolding ata_error
    ata_error-Answers s = sends _ _ s (reply_header-IsReplyTo mc dev request.aoehdr byte)

    transfer_read-Answers :
        (len ppos : ℕ) (s : World Disk)
        → Answers mc dev request.aoehdr ifentry s (transfer_read mc st ifentry len ppos blank s)
    unfolding transfer_read
    transfer_read-Answers len ppos s =
        moved (file_read mc len ppos s.disk).1 s
          (sends _ _ _ (read_reply-IsReplyTo len (file_read mc len ppos s.disk).0))

    transfer_write-Answers :
        (len ppos : ℕ) (s : World Disk)
        → len ≤ length request.payload
        → Answers mc dev request.aoehdr ifentry s
            (transfer_write mc st ifentry len ppos request blank s)
    unfolding transfer_write
    transfer_write-Answers len ppos s enough =
        let out = file_write mc (take len request.payload) ppos s.disk in
        rw (read_buffer-take len request.payload enough) (
          moved out.1 s (elim (Bool-cases (is_positive mc out.0)) [
            | inl wrote ↦ rw wrote (sends _ _ _ (reply_header-IsReplyTo mc dev request.aoehdr byte))
            | inr failed ↦ rw failed (
                sends _ _ _
                  (error_header-IsReplyTo mc dev request.aoehdr request.aoehdr.error byte))
          ]))

    transfer-Answers :
        (s : World Disk)
        → (is_write request.cmdstat ≡ true → request.nsect * 512 ≤ length request.payload)
        → Answers mc dev request.aoehdr ifentry s (transfer mc st ifentry request blank s)
    unfolding transfer
    transfer-Answers s covers = elim (Bool-cases (is_read request.cmdstat)) [
      | inl reads ↦ rw reads (transfer_read-Answers _ _ s)
      | inr other ↦ elim (Bool-cases (is_write request.cmdstat)) [
        | inl writes ↦ rw (other, writes) (transfer_write-Answers _ _ s (covers writes))
        | inr neither ↦
            rw (other, neither) (sends _ _ s (error_header-IsReplyTo mc dev request.aoehdr _ byte))
      ]
    ]

    identifies :
        (s : World Disk)
        → process_identify mc st ifentry dev blank s
          ≡ xmit st ifentry
              (identify blank (drive_id mc dev.size (codes w.name)))
              (aoe_atahdr_size + 512)
              s
    unfolding process_identify
    identifies s = rw w.named

    process_identify-Answers :
        (s : World Disk)
        → Answers mc dev request.aoehdr ifentry s (process_identify mc st ifentry dev blank s)
    process_identify-Answers s =
        subst (Answers mc dev request.aoehdr ifentry s) (sym (identifies s)) (
          xmit-Answers mc dev request.aoehdr st ifentry w.iface
            (identify blank (drive_id mc dev.size (codes w.name))) (aoe_atahdr_size + 512) s w.known
            (reply_header-IsReplyTo mc dev request.aoehdr byte))

    perform-Answers :
        (s : World Disk)
        → (is_write request.cmdstat ≡ true → request.nsect * 512 ≤ length request.payload)
        → Answers mc dev request.aoehdr ifentry s (perform mc st ifentry dev request blank s)
    unfolding perform
    perform-Answers s covers =
        elim (Bool-cases (is_read request.cmdstat || is_write request.cmdstat)) [
          | inl rw_command ↦ rw rw_command (transfer-Answers s covers)
          | inr other ↦ elim (Bool-cases (request.cmdstat == win_identify)) [
            | inl id ↦ rw (other, id) (process_identify-Answers s)
            | inr unknown ↦ rw (other, unknown) (ata_error-Answers s)
          ]
        ]

    -- An ATA request gets exactly one frame in answer, sent on the interface that it came in on to
    -- its sender, with its tag, the device's address and the response flag, and the handler gives back
    -- one hold on the work entry and its packet. This supposes that `malloc` succeeds, that the
    -- pointers of the device lead somewhere, and that a write brings all of its data along.
    pub process_ata-Answers :
        {p n : ℕ} {e : WorkEntry} {k : Pkt} (wk : ℕ) (s : World Disk)
        → (is_write request.cmdstat ≡ true → request.nsect * 512 ≤ length request.payload)
        → IsHeld s.mem wk p e k (suc n)
        → Replied mc st dev ifentry request wk p n e k s
    unfolding process_ata
    process_ata-Answers {p} {n} {e} {k} wk s covers held =
        let (denied, checked) = check_access-done w in
        let a = answered denied in
        let (m', freed, fate, same) =
          workdestroy-Fate n (subst (λ m. IsHeld m wk p e k (suc n)) (sym a.mem) held) in
        (
          record a.after { mem = m' },
          record { ifentry = ifentry; frame = a.frame; len = a.len },
          rw (createpkt-some, checked, a.returns, freed),
          a.sent,
          refl,
          a.reply,
          fate,
          subst (λ m. SameElse wk p m m') a.mem same,
        )
      where
        answered :
            (b : Bool)
            → Answers mc dev request.aoehdr ifentry s (
                if b
                then ata_error mc st ifentry blank s
                else perform mc st ifentry dev request blank s)
        answered true = ata_error-Answers s
        answered false = perform-Answers s covers
