-- ===== src/Api/Socket.antt =====
-- api.c: qaoed_api, the thread that opens the socket and serves its connections one after the other. The results of the calls of the system and what arrives on each
-- connection, until `accept` fails, are arguments.
use qaoed.Base.{
  ℤ, negsuc, String, List, [], ◌∷◌, ◌++◌, Option, none, some, Bool, Bool-cases, inl, inr, Outcome,
  done, fault, blocked, ◌&&◌, ◌>>=◌, if◌then◌else◌, ◌≡◌, refl, ◌∙◌, sym,
}
use qaoed.Base.Ensures.{Ensures, bind-Ensures, done-Ensures, if-Ensures}
use qaoed.Conf.{QConfig}
use qaoed.Api.Add.Exclusive.{Exclusive}
use qaoed.Api.Query.{strcpy}
use qaoed.Api.Dispatch.{Message, closes, argument, process_request, recv_requests}
use qaoed.Api.Dispatch.Invariant.{recv_requests-Exclusive}

-- Which of the calls that open the socket succeed.
pub record Calls : Type 0 where
  pub socket : Bool
  pub bind : Bool
  pub listen : Bool

unfoldable pub serve_connections : List (List Message) → QConfig → Outcome QConfig
serve_connections [] conf = done conf
serve_connections (c ∷ cs) conf = recv_requests c conf >>= serve_connections cs

-- The path is copied into a field of 108 bytes. The thread ends when `accept` fails, always with -1.
unfoldable pub qaoed_api : Calls → List (List Message) → QConfig → Outcome (QConfig × ℤ)
qaoed_api calls connections conf = elim conf.sockpath [
  | none ↦ done (conf, negsuc 0)
  | some path ↦
      if calls.socket
      then (strcpy 108 path >>= λ _.
          if calls.bind && calls.listen
          then (serve_connections connections conf >>= λ conf'. done (conf', negsuc 0))
          else done (conf, negsuc 0))
      else done (conf, negsuc 0)
]

-- The messages of a connection that are read before it is closed.
unfoldable pub heard : List Message → List Message
heard [] = []
heard (m ∷ ms) = let rest = heard ms in if closes m then [] else m ∷ rest

unfoldable pub all_heard : List (List Message) → List Message
all_heard [] = []
all_heard (c ∷ cs) = heard c ++ all_heard cs

module _ {A B C : Type 0} (f : A → Outcome B) (g : B → Outcome C) where
  bind_assoc : (m : Outcome A) → (m >>= f >>= g) ≡ (m >>= λ a. f a >>= g)
  bind_assoc (done a) = refl
  bind_assoc fault = refl
  bind_assoc blocked = refl

module _ {A B : Type 0} (f g : A → Outcome B) (same : (a : A) → f a ≡ g a) where
  bind_same : (m : Outcome A) → (m >>= f) ≡ (m >>= g)
  bind_same (done a) = same a
  bind_same fault = refl
  bind_same blocked = refl

heard-append :
    (ms rest : List Message) (conf : QConfig)
    → recv_requests (heard ms ++ rest) conf ≡ (recv_requests ms conf >>= recv_requests rest)
unfolding heard recv_requests
heard-append [] rest conf = refl
heard-append (m ∷ ms) rest conf = elim (Bool-cases (closes m)) [
  | inl e ↦ rw e
  | inr e ↦
      rw (e, e)
        (bind_same _ _ (heard-append ms rest) (process_request m.answers m.cmd (argument m) conf)
          ∙ sym (
              bind_assoc (recv_requests ms) (recv_requests rest)
                (process_request m.answers m.cmd (argument m) conf)))
]

-- The connections are served as one session would be that reads the messages of all of them, of each
-- up to the first that closes it.
serve_connections_lem :
    (cs : List (List Message)) (conf : QConfig)
    → serve_connections cs conf ≡ recv_requests (all_heard cs) conf
unfolding serve_connections all_heard recv_requests
serve_connections_lem [] conf = refl
serve_connections_lem (c ∷ cs) conf =
    bind_same _ _ (serve_connections_lem cs) (recv_requests c conf)
    ∙ sym (heard-append c (all_heard cs) conf)

abbrev ExclusiveAtEnd : QConfig × ℤ → Type 0
ExclusiveAtEnd r = Exclusive r.0.devices × (r.1 ≡ negsuc 0)

-- The thread of the control socket keeps the devices exclusive: whatever the calls of the system come
-- to and whatever its clients send on any number of connections, when it ends, which it always does
-- with -1, any two devices differ in shelf or in slot or serve one file on two interfaces, if all did
-- so at the start.
pub qaoed_api-Exclusive :
    (calls : Calls) (connections : List (List Message)) (conf conf' : QConfig) (ret : ℤ)
    → Exclusive conf.devices
    → qaoed_api calls connections conf ≡ done (conf', ret)
    → Exclusive conf'.devices × (ret ≡ negsuc 0)
unfolding qaoed_api
qaoed_api-Exclusive calls connections conf conf' ret exclusive h =
    thread conf.sockpath (conf', ret) h
  where
    refused : Ensures ExclusiveAtEnd (done (conf, negsuc 0))
    refused = done-Ensures ExclusiveAtEnd _ (exclusive, refl)

    served : Ensures ExclusiveAtEnd (serve_connections connections conf >>= λ c. done (c, negsuc 0))
    served = bind-Ensures ExclusiveAtEnd (serve_connections connections conf) _ λ c e.
        done-Ensures ExclusiveAtEnd _ (
          recv_requests-Exclusive (all_heard connections) conf c exclusive
              (sym (serve_connections_lem connections conf) ∙ e),
          refl,
        )

    thread :
        (p : Option String)
        → Ensures ExclusiveAtEnd (elim p as (λ _. Outcome (QConfig × ℤ)) [
          | none ↦ done (conf, negsuc 0)
          | some path ↦
              if calls.socket
              then (strcpy 108 path >>= λ _.
                  if calls.bind && calls.listen
                  then (serve_connections connections conf >>= λ c. done (c, negsuc 0))
                  else done (conf, negsuc 0))
              else done (conf, negsuc 0)
        ])
    thread none = refused
    thread (some path) =
        if-Ensures ExclusiveAtEnd calls.socket _ _
          (bind-Ensures ExclusiveAtEnd (strcpy 108 path) _
            λ _ _. if-Ensures ExclusiveAtEnd (calls.bind && calls.listen) _ _ served refused)
          refused
