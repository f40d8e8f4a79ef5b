-- ===== src/Supervisor/Views/Heard.antt =====
-- What one delivery changes in the view behind each stream.
use crossbridge.Prelude.{
  Bool, false, List, [], ◌∷◌, ◌≡◌, ◌⊎◌, inl, inr, refl, sym, ◌∙◌, some, if◌then◌else◌, In, contains,
  nat_eq, nat_eq_iff, nat_has_eq, arith, Bool-cases,
}
use crossbridge.Prelude.Text.{Text, text_has_eq}
use crossbridge.Prelude.HashMap
use crossbridge.Prelude.HashMap.{HashMap}
use crossbridge.Protocol.{SupervisorMessage, Notification, notification, peer_joined, peer_left}
use crossbridge.Supervisor.{ConnId, StreamId, ConnRecord, Log, Faults, deliver_one, deliver}
use crossbridge.Supervisor.Delivery.{absent, delivered, refused, round}
use crossbridge.Supervisor.Views.{hear, view, HasOwnStreams, IsUnused}

-- Hearing a notification twice is hearing it once.
hear_idem :
    (n : Notification) (slug : Text) (known : Bool)
    → hear (notification n) slug (hear (notification n) slug known)
      ≡ hear (notification n) slug known
unfolding hear
hear_idem (peer_joined p) slug known = ground arith
hear_idem (peer_left p) slug known = ground arith

pub view-other :
    (stream t : StreamId) (msg : SupervisorMessage) (sent : Log) (slug : Text)
    → (t ≡ stream → ⊥)
    → view stream ((t, msg) ∷ sent) slug ≡ view stream sent slug
unfolding view
view-other stream t msg sent slug ne = ground (arith, ne)

pub view-own :
    (stream : StreamId) (msg : SupervisorMessage) (sent : Log) (slug : Text)
    → view stream ((stream, msg) ∷ sent) slug ≡ hear msg slug (view stream sent slug)
unfolding view
view-own stream msg sent slug = ground arith

module _ (f : Faults) (n : Notification) (conns : HashMap ConnId ConnRecord) where
  one_unused :
      (stream : StreamId)
      → IsUnused stream conns
      → (i : ConnId) (sent : Log) (slug : Text)
      → view stream (deliver_one f (notification n) conns i sent).1 slug ≡ view stream sent slug
  one_unused stream unused i sent slug = elim (round f (notification n) conns i sent) [
    | absent gone o ↦ rw o
    | delivered rec found o ↦
        rw o (view-other stream rec.write_half (notification n) sent slug (unused i rec found))
    | refused rec e found fails o ↦ rw o
  ]

  -- A delivery is not heard on a stream that none of the connections has.
  pub view-deliver_unused :
      (stream : StreamId)
      → IsUnused stream conns
      → (ids : List ConnId) (sent : Log) (slug : Text)
      → view stream (deliver f (notification n) conns ids sent).1 slug ≡ view stream sent slug
  unfolding deliver
  view-deliver_unused stream unused [] sent slug = refl
  view-deliver_unused stream unused (i ∷ ids) sent slug =
      view-deliver_unused stream unused ids (deliver_one f (notification n) conns i sent).1 slug
      ∙ one_unused stream unused i sent slug

  module _ (own : HasOwnStreams conns) (id : ConnId) (rec : ConnRecord)
      (e : HashMap.get id conns ≡ some rec) where
    abbrev heard_by : Bool → Log → Text → Bool
    heard_by listed sent slug =
        if listed
        then hear (notification n) slug (view rec.write_half sent slug)
        else view rec.write_half sent slug

    view_round :
        (i : ConnId) (sent : Log)
        → ((slug : Text)
            → view rec.write_half (deliver_one f (notification n) conns i sent).1 slug
              ≡ heard_by (nat_eq i id) sent slug)
          ⊎ ((i ≡ id) × ((deliver_one f (notification n) conns i sent).0 ≡ false))
    view_round i sent = elim (round f (notification n) conns i sent) [
      | absent gone o ↦ inl (λ slug. rw o (ground (arith, gone, e)))
      | delivered rec' found o ↦ elim (Bool-cases (nat_eq i id)) [
        | inl same ↦ inl (λ slug.
            rw (o, same)
              (ground (
                arith,
                found,
                e,
                nat_eq_iff i id,
                view-own rec.write_half (notification n) sent slug,
              )))
        | inr other ↦ inl (λ slug.
            rw (o, other)
              (view-other rec.write_half rec'.write_half (notification n) sent slug
                (λ shared. ground (arith, other, own i id rec' rec found e shared))))
      ]
      | refused rec' e' found fails o ↦ elim (Bool-cases (nat_eq i id)) [
        | inl same ↦ inr ((nat_eq_iff i id).0 same, rw o)
        | inr other ↦ inl (λ slug. rw (o, other))
      ]
    ]

    -- A connection of the list hears the message or is reported; any other hears nothing.
    pub view-deliver :
        (ids : List ConnId) (sent : Log)
        → ((slug : Text)
            → view rec.write_half (deliver f (notification n) conns ids sent).1 slug
              ≡ heard_by (contains ids id) sent slug)
          ⊎ In id (deliver f (notification n) conns ids sent).0
    unfolding deliver
    view-deliver [] sent = inl (λ slug. refl)
    view-deliver (i ∷ ids) sent = elim (view_round i sent) [
      | inr (same, fails) ↦ inr (rw fails (inl (sym same)))
      | inl heard ↦ elim (view-deliver ids (deliver_one f (notification n) conns i sent).1) [
        | inr failed ↦ inr (ground (arith, failed))
        | inl later ↦ inl (λ slug.
            ground
              (arith, later slug, heard slug, hear_idem n slug (view rec.write_half sent slug)))
      ]
    ]
