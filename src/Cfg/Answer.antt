-- ===== src/Cfg/Answer.antt =====
-- Every CFG request is carried out without a fault, keeps the string in bounds, and sends at most one
-- frame; one that an access list does not accept does nothing.
use qaoed.Base.{
  ℕ, suc, ◌+◌, ◌≤◌, ◌<◌, ◌≡◌, refl, sym, subst, ◌≢◌, inl, inr, List, [], ◌∷◌, ◌++◌, append-nil,
  Option, none, some, Bool, true, false, not, arith, Outcome, done, ◌>>=◌, if◌then◌else◌,
  Bool-cases, leb, leb→le, length, take, get_elem?, ◌&&◌, ◌==◌, bit_or, same_bytes,
}
use qaoed.Acl.{AclHdr, acl_accept}
use qaoed.Acl.Match.{Decides}
use qaoed.Wire.{
  CfgFrame, AoeHdr, aoe_cfghdr_size, aoe_cfg_read, aoe_cfg_match, aoe_cfg_match_partial,
  aoe_cfg_set_if_empty, aoe_cfg_set, aoe_err_badcmd, aoe_err_badarg, aoe_err_cfg_set,
}
use qaoed.Conf.{Ifst, AoeDev}
use qaoed.Memory.{WorkEntry, Pkt, workdestroy}
use qaoed.Memory.Lifetime.{IsHeld, SameElse}
use qaoed.Network.Delivery.{Fate, workdestroy-Fate}
use qaoed.Device.{Machine, cfg, Sent, World, Setting, refused}
use qaoed.Device.Reply.{
  IsReplyTo, header_of, reply_header, createpkt-some, reply_header-IsReplyTo,
  error_header-IsReplyTo, xmit-Answers,
}
use qaoed.Ata.Access.{refused-Decides}
use qaoed.Ata.Answer.{IsAclPtr, refused-done, read_buffer-take}
use qaoed.Cfg.{
  command, flag_error, is_cfg_query, is_cfg_store, check_access, with_string, store, same_string,
  answer_if, cfg_match, cfg_match_partial, cfg_set, cfg_set_if_empty, cfg_read, answer, begin_reply,
  send_reply, respond, process_cfg, Effect,
}
use qaoed.Cfg.Store.{IsStored, store-done, store-IsStored, with_string-done}

-- Only the string of the device may differ.
abbrev pub IsSameDevice : AoeDev → AoeDev → Type 0
IsSameDevice dev after = after ≡ record dev { cfg_len = after.cfg_len; cfg = after.cfg }

module _ (mc : Machine) (dev : AoeDev) (request : CfgFrame) where
  open mc use {Disk}

  -- A reply, if there is one, answers the request.
  abbrev IsGood : Option CfgFrame → Type 0
  IsGood none = Unit
  IsGood (some f) = IsReplyTo mc dev request.aoehdr f.aoehdr

  -- The command is carried out, and the string of the device stays in bounds.
  record Carried (r : Outcome (Effect mc)) : Type 0 where
    after : AoeDev
    reply : Option CfgFrame
    returns : r ≡ done (after, reply)
    stored : IsStored after
    kept : IsSameDevice dev after
    good : IsGood reply

  module _ (byte : request.aoehdr.ver_flags < 256) (v : IsStored dev)
      (room : 1024 ≤ length request.cfg)
      (partial : command request ≡ aoe_cfg_match_partial → mc.host.ntohs request.cfg_len ≤ 1024)
      (reply : CfgFrame) (head : reply.aoehdr ≡ reply_header mc dev request.aoehdr) where
    plain : IsReplyTo mc dev request.aoehdr reply.aoehdr
    plain =
        subst (IsReplyTo mc dev request.aoehdr) (sym head)
          (reply_header-IsReplyTo mc dev request.aoehdr byte)

    flagged : (code : ℕ) → IsReplyTo mc dev request.aoehdr (flag_error code reply).aoehdr
    flagged code =
        rw head
          (error_header-IsReplyTo mc dev request.aoehdr (bit_or request.aoehdr.error code) byte)

    string-Carried : Carried (with_string mc dev reply >>= (λ r. done (dev, some r)))
    string-Carried = record {
      after = dev;
      reply =
          some
            (record reply { cfg_len = mc.host.htons dev.cfg_len; cfg = take dev.cfg_len dev.cfg });
      returns = rw (with_string-done mc dev reply v);
      stored = v;
      kept = refl;
      good = plain;
    }

    answer_if-Carried : (b : Bool) → Carried (answer_if mc b dev reply)
    unfolding answer_if
    answer_if-Carried true = string-Carried
    answer_if-Carried false = record {
      after = dev;
      reply = none;
      returns = refl;
      stored = v;
      kept = refl;
      good = tt;
    }

    same_string-done :
        (n : ℕ)
        → n ≤ 1024
        → same_string mc n dev request ≡ done (same_bytes (take n dev.cfg) (take n request.cfg))
    unfolding same_string
    same_string-done n h = rw (
      read_buffer-take n dev.cfg (omega (arith, v.array)),
      read_buffer-take n request.cfg (omega arith),
    )

    store-Carried :
        (n : ℕ) → n ≤ 1024 → Carried (store mc dev n request >>= (λ dev'. done (dev', some reply)))
    store-Carried n h = record {
      after = _;
      reply = some reply;
      returns = rw (store-done mc dev n request (omega arith));
      stored = store-IsStored mc dev n request v h (omega arith);
      kept = refl;
      good = plain;
    }

    error-Carried : (code : ℕ) → Carried (done (dev, some (flag_error code reply)))
    error-Carried code = record {
      after = dev;
      reply = some (flag_error code reply);
      returns = refl;
      stored = v;
      kept = refl;
      good = flagged code;
    }

    cfg_match-Carried : Carried (cfg_match mc dev request reply)
    unfolding cfg_match
    cfg_match-Carried = elim (Bool-cases (request.cfg_len == dev.cfg_len)) [
      | inl same ↦ rw same (rw (same_string-done dev.cfg_len v.fits) (answer_if-Carried _))
      | inr other ↦
          rw other (record {
            after = dev;
            reply = none;
            returns = refl;
            stored = v;
            kept = refl;
            good = tt;
          })
    ]

    cfg_set-Carried : Carried (cfg_set mc dev request reply)
    unfolding cfg_set
    cfg_set-Carried = elim (Bool-cases (leb (mc.host.ntohs request.cfg_len) 1024)) [
      | inl small ↦ rw small (store-Carried _ (leb→le _ _ small))
      | inr large ↦ rw large (error-Carried aoe_err_badarg)
    ]

    cfg_set_if_empty-Carried : Carried (cfg_set_if_empty mc dev request reply)
    unfolding cfg_set_if_empty
    cfg_set_if_empty-Carried =
        elim (Bool-cases ((dev.cfg_len == 0) && leb (mc.host.ntohs request.cfg_len) 1024)) [
          | inl ok ↦ rw ok (store-Carried (mc.host.ntohs request.cfg_len) (ground arith))
          | inr bad ↦ rw bad (error-Carried aoe_err_cfg_set)
        ]

    answer-Carried : Carried (answer mc dev request reply)
    unfolding answer cfg_read cfg_match_partial
    answer-Carried = elim (Bool-cases (command request == aoe_cfg_read)) [
      | inl c0 ↦ rw c0 string-Carried
      | inr n0 ↦ elim (Bool-cases (command request == aoe_cfg_match)) [
        | inl c1 ↦ rw (n0, c1) cfg_match-Carried
        | inr n1 ↦ elim (Bool-cases (command request == aoe_cfg_match_partial)) [
          | inl c2 ↦
              rw (n0, n1, c2)
                (rw (same_string-done (mc.host.ntohs request.cfg_len) (ground (arith, partial)))
                  (answer_if-Carried _))
          | inr n2 ↦ elim (Bool-cases (command request == aoe_cfg_set_if_empty)) [
            | inl c3 ↦ rw (n0, n1, n2, c3) cfg_set_if_empty-Carried
            | inr n3 ↦ elim (Bool-cases (command request == aoe_cfg_set)) [
              | inl c4 ↦ rw (n0, n1, n2, n3, c4) cfg_set-Carried
              | inr n4 ↦ rw (n0, n1, n2, n3, n4) (error-Carried aoe_err_badcmd)
            ]
          ]
        ]
      ]
    ]

-- What a CFG request needs of the configuration: the interface is there, and the pointers to the two
-- access lists are NULL or lead to a list.
pub record IsCfgWired (st : Setting) (dev : AoeDev) (ifentry : ℕ) : Type 0 where
  pub iface : Ifst
  pub known : get_elem? st.intlist ifentry ≡ some iface
  pub cfgracl : IsAclPtr st dev.cfgracl
  pub cfgsetacl : IsAclPtr st dev.cfgsetacl

-- No frame, or one that answers the request on the interface.
abbrev pub AtMostOneReply : Machine → AoeDev → AoeHdr → ℕ → List Sent → Type 0
AtMostOneReply mc dev request ifentry [] = Unit
AtMostOneReply mc dev request ifentry (x ∷ []) =
    (x.ifentry ≡ ifentry) × IsReplyTo mc dev request (header_of x.frame)
AtMostOneReply mc dev request ifentry (x ∷ y ∷ xs) = ⊥

-- The command has been carried out, and n others hold the packet still.
abbrev pub CfgReplied :
    (mc : Machine)
    → Setting
    → AoeDev
    → ℕ
    → CfgFrame
    → ℕ
    → ℕ
    → ℕ
    → WorkEntry
    → Pkt
    → World mc.Disk
    → Type 0
CfgReplied mc st dev ifentry request wk p n e k s =
    (dev' : AoeDev) × (s' : World mc.Disk) × (frames : List Sent) × (process_cfg mc true st dev wk
        ifentry request s
      ≡ done (dev', s'))
    × IsStored dev'
    × IsSameDevice dev dev'
    × (s'.sent ≡ s.sent ++ frames)
    × AtMostOneReply mc dev request.aoehdr ifentry frames
    × Fate s'.mem wk p e k n
    × SameElse wk p s.mem s'.mem

module _ (mc : Machine) (st : Setting) (dev : AoeDev) (ifentry : ℕ) (request : CfgFrame) where
  open mc use {Disk}

  -- The command and its transmission, before the work entry is released.
  record Handled (s : World Disk) (r : Outcome (AoeDev × World Disk)) : Type 0 where
    after : AoeDev
    world : World Disk
    frames : List Sent
    returns : r ≡ done (after, world)
    stored : IsStored after
    kept : IsSameDevice dev after
    mem : world.mem ≡ s.mem
    sent : world.sent ≡ s.sent ++ frames
    replies : AtMostOneReply mc dev request.aoehdr ifentry frames

  check_access-done :
      IsCfgWired st dev ifentry → (b : Bool) × (check_access mc st dev request ≡ done b)
  unfolding check_access
  check_access-done w = elim (Bool-cases (is_cfg_query (command request))) [
    | inl query ↦ rw query (refused-done st dev.cfgracl request.aoehdr.eth.h_source w.cfgracl)
    | inr other ↦ elim (Bool-cases (is_cfg_store (command request))) [
      | inl stores ↦
          rw (other, stores) (refused-done st dev.cfgsetacl request.aoehdr.eth.h_source w.cfgsetacl)
      | inr neither ↦ rw (other, neither) (false, refl)
    ]
  ]

  idle-Handled : (s : World Disk) → IsStored dev → Handled s (done (dev, s))
  idle-Handled s v = record {
    after = dev;
    world = s;
    frames = [];
    returns = refl;
    stored = v;
    kept = refl;
    mem = refl;
    sent = sym (append-nil s.sent);
    replies = tt;
  }

  send_reply-Handled :
      (iface : Ifst) (s : World Disk) (dev' : AoeDev) (reply : Option CfgFrame)
      → get_elem? st.intlist ifentry ≡ some iface
      → IsStored dev'
      → IsSameDevice dev dev'
      → IsGood mc dev request reply
      → Handled s (send_reply mc st ifentry reply s >>= λ s'. done (dev', s'))
  unfolding send_reply
  send_reply-Handled iface s dev' none known v same good = record {
    after = dev';
    world = s;
    frames = [];
    returns = refl;
    stored = v;
    kept = same;
    mem = refl;
    sent = sym (append-nil s.sent);
    replies = tt;
  }
  send_reply-Handled iface s dev' (some f) known v same good =
      let len = aoe_cfghdr_size + length f.cfg in
      let a = xmit-Answers mc dev request.aoehdr st ifentry iface (cfg f) len s known good in
      record {
        after = dev';
        world = a.after;
        frames = record { ifentry = ifentry; frame = a.frame; len = a.len } ∷ [];
        returns = rw a.returns;
        stored = v;
        kept = same;
        mem = a.mem;
        sent = a.sent;
        replies = (refl, a.reply);
      }

  module _ (byte : request.aoehdr.ver_flags < 256) (v : IsStored dev)
      (room : 1024 ≤ length request.cfg)
      (partial : command request ≡ aoe_cfg_match_partial → mc.host.ntohs request.cfg_len ≤ 1024)
      (w : IsCfgWired st dev ifentry) where
    respond-Handled :
        (s : World Disk)
        → Handled s
            (respond mc st dev ifentry request (some (reply_header mc dev request.aoehdr)) s)
    unfolding respond begin_reply
    respond-Handled s =
        let start = begin_reply mc w.iface.mtu request (reply_header mc dev request.aoehdr) in
        let c = answer-Carried mc dev request byte v room partial start refl in
        rw (w.known, c.returns)
          (send_reply-Handled w.iface s c.after c.reply w.known c.stored c.kept c.good)

    -- A CFG request is carried out without a fault: the string of the device stays within its 1024
    -- bytes, nothing else of the device changes, at most one frame is sent, which answers the request on its interface, and the handler
    -- gives back one hold on the work entry and its packet. This supposes that `malloc` succeeds, that
    -- the pointers of the device lead somewhere, that the buffer of the packet has room for 1024 bytes
    -- of string, and that a partial match asks for no more than that.
    pub process_cfg-Handled :
        {p n : ℕ} {e : WorkEntry} {k : Pkt} (wk : ℕ) (s : World Disk)
        → IsHeld s.mem wk p e k (suc n)
        → CfgReplied mc st dev ifentry request wk p n e k s
    unfolding process_cfg
    process_cfg-Handled {p} {n} {e} {k} wk s held =
        let (denied, checked) = check_access-done w in
        let h = handled denied in
        let (m', freed, fate, same) =
          workdestroy-Fate n (subst (λ m. IsHeld m wk p e k (suc n)) (sym h.mem) held) in
        (
          h.after,
          record h.world { mem = m' },
          h.frames,
          rw (checked, createpkt-some, h.returns, freed),
          h.stored,
          h.kept,
          h.sent,
          h.replies,
          fate,
          subst (λ m. SameElse wk p m m') h.mem same,
        )
      where
        handled :
            (b : Bool)
            → Handled s (
                if b
                then done (dev, s)
                else respond mc st dev ifentry request
                    (some (reply_header mc dev request.aoehdr))
                    s)
        handled true = idle-Handled s v
        handled false = respond-Handled s

-- The access list that guards the command: the read list for read and match, the set list for set.
pub data IsCfgGuarded (dev : AoeDev) (c : ℕ) (acl : Option ℕ) : Type 0 where
  queries : is_cfg_query c ≡ true → acl ≡ dev.cfgracl → IsCfgGuarded dev c acl
  stores : is_cfg_store c ≡ true → acl ≡ dev.cfgsetacl → IsCfgGuarded dev c acl

check_access-IsCfgGuarded :
    (mc : Machine) (st : Setting) (dev : AoeDev) (request : CfgFrame) (acl : Option ℕ)
    → IsCfgGuarded dev (command request) acl
    → check_access mc st dev request ≡ refused st acl request.aoehdr.eth.h_source
unfolding check_access
check_access-IsCfgGuarded mc st dev request acl (queries h e) = rw (h, e)
check_access-IsCfgGuarded mc st dev request acl (stores h e) = ground arith

-- If the list that guards the command decides anything but "accept" for the sender, nothing is sent,
-- the device and its file stay as they are, and the work entry is released.
pub process_cfg_denied :
    (mc : Machine) (allocated : Bool) (st : Setting) (dev : AoeDev) (wk ifentry i r : ℕ)
    (request : CfgFrame) (a : AclHdr) (s : World mc.Disk)
    → IsCfgGuarded dev (command request) (some i)
    → get_elem? st.acllist i ≡ some a
    → Decides a.defaultpolicy request.aoehdr.eth.h_source r a.acl
    → r ≢ acl_accept
    → process_cfg mc allocated st dev wk ifentry request s
      ≡ (workdestroy (some wk) s.mem >>= λ m. done (dev, record s { mem = m }))
unfolding process_cfg
process_cfg_denied mc allocated st dev wk ifentry i r request a s g list d other =
    let no_access : not (r == acl_accept) ≡ true = ground arith in
    rw (
      check_access-IsCfgGuarded mc st dev request (some i) g,
      refused-Decides st i r a request.aoehdr.eth.h_source list d,
      no_access,
    )
