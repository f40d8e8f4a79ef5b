-- ===== src/Supervisor/Views/Session.antt =====
-- crossbridge-supervisor/src/lib.rs: the messages that a registered server was sent: an Ack, and the
-- notifications after it.
use crossbridge.Prelude.{
  Bool, List, [], ◌∷◌, ◌++◌, ◌≡◌, ◌∙◌, inl, inr, refl, ap, sym, subst, none, some, Option,
  if◌then◌else◌, ◌==◌, contains, nat_eq, nat_eq_iff, nat_has_eq, Bool-cases,
}
use crossbridge.Prelude.Text.{Text, text_has_eq}
use crossbridge.Protocol.{
  SupervisorMessage, Notification, register_response, notification, ack, nack,
}
use crossbridge.Supervisor.{StreamId, Log}
use crossbridge.Supervisor.Views.{hear, view}

-- The peers of an Ack, and the notifications since, oldest first.
abbrev pub Session : Type 0
Session = List Text × List Notification

unfoldable pub since : SupervisorMessage → Option Session → Option Session
since (register_response (ack peers)) earlier = some (peers, [])
since (register_response (nack reason)) earlier = none
since (notification n) none = none
since (notification n) (some (peers, ns)) = some (peers, ns ++ n ∷ [])

-- What was sent on a stream since its last Ack.
unfoldable pub session_of : StreamId → Log → Option Session
unfolding since
session_of stream [] = none
session_of stream ((t, msg) ∷ sent) =
    let earlier = session_of stream sent in if t == stream then since msg earlier else earlier

-- The slugs that a server takes for peers after the notifications.
unfoldable pub hear_each : List Notification → Text → Bool → Bool
hear_each [] slug known = known
hear_each (n ∷ ns) slug known = hear_each ns slug (hear (notification n) slug known)

hear_each-append :
    (ns : List Notification) (n : Notification) (slug : Text) (known : Bool)
    → hear_each (ns ++ n ∷ []) slug known ≡ hear (notification n) slug (hear_each ns slug known)
unfolding hear_each
hear_each-append [] n slug known = refl
hear_each-append (m ∷ ns) n slug known =
    hear_each-append ns n slug (hear (notification m) slug known)

abbrev IsViewed : StreamId → Log → Option Session → Text → Type 0
IsViewed stream sent (some (peers, ns)) slug =
    view stream sent slug ≡ hear_each ns slug (contains peers slug)
IsViewed stream sent none slug = Unit {0}

since-IsViewed :
    (stream : StreamId) (msg : SupervisorMessage) (sent : Log) (slug : Text)
    (earlier : Option Session)
    → IsViewed stream sent earlier slug
    → IsViewed stream ((stream, msg) ∷ sent) (since msg earlier) slug
unfolding since view hear hear_each
since-IsViewed stream (register_response (ack peers)) sent slug earlier h =
    rw ((nat_eq_iff stream stream).1 refl)
since-IsViewed stream (register_response (nack reason)) sent slug earlier h = tt
since-IsViewed stream (notification n) sent slug none h = tt
since-IsViewed stream (notification n) sent slug (some (peers, ns)) h =
    rw ((nat_eq_iff stream stream).1 refl)
      (ap (hear (notification n) slug) h ∙ sym (hear_each-append ns n slug (contains peers slug)))

IsViewed-other :
    (stream t : StreamId) (msg : SupervisorMessage) (sent : Log) (slug : Text)
    (earlier : Option Session)
    → nat_eq t stream ≡ Bool.false
    → IsViewed stream sent earlier slug
    → IsViewed stream ((t, msg) ∷ sent) earlier slug
unfolding view
IsViewed-other stream t msg sent slug none other h = tt
IsViewed-other stream t msg sent slug (some (peers, ns)) other h = rw other h

session_of-IsViewed :
    (stream : StreamId) (sent : Log) (slug : Text)
    → IsViewed stream sent (session_of stream sent) slug
unfolding session_of
session_of-IsViewed stream [] slug = tt
session_of-IsViewed stream ((t, msg) ∷ sent) slug = elim (Bool-cases (nat_eq t stream)) [
  | inl same ↦
      rw (same, (nat_eq_iff t stream).0 same)
        (since-IsViewed stream msg sent slug (session_of stream sent)
          (session_of-IsViewed stream sent slug))
  | inr other ↦ rw other (
      IsViewed-other stream t msg sent slug (session_of stream sent) other
        (session_of-IsViewed stream sent slug))
]

-- What a server knows is what the messages since its Ack make of it.
pub view-session :
    (stream : StreamId) (sent : Log) (slug : Text) (peers : List Text) (ns : List Notification)
    → session_of stream sent ≡ some (peers, ns)
    → view stream sent slug ≡ hear_each ns slug (contains peers slug)
view-session stream sent slug peers ns h =
    subst (λ o. IsViewed stream sent o slug) h (session_of-IsViewed stream sent slug)
