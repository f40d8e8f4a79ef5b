-- ===== src/Tests/Schedule.antt =====
-- The theorems on runs of the supervisor, at a run in which a server hangs up.
use crossbridge.Prelude.{
  ℕ, ◌≡◌, inl, refl, not, ◌&&◌, ◌==◌, if◌then◌else◌, some, none, [], ◌∷◌, ◌++◌, filter, In, arith,
  nat_has_eq,
}
use crossbridge.Prelude.Text.{Text, codes, text_has_eq, text_eq, split}
use crossbridge.Prelude.HashMap
use crossbridge.Prelude.FilePath.{join, of_text, path_eq}
use crossbridge.Prelude.FileSystem.{create_dir_all, make_dirs, exists, ancestors, heads, is_file}
use crossbridge.Protocol.{frame_too_large}
use crossbridge.Supervisor.{
  ConnId, ConnRecord, State, Faults, departed, init, handle_event, handle_registration,
  is_registered, group_map, try_create_dir, slug_dir, acknowledge, enroll, write_message, deliver,
  deliver_one,
}
use crossbridge.Supervisor.Views.{view}
use crossbridge.Supervisor.Schedule.{hang_up, Reach, next, drain}
use crossbridge.Supervisor.Schedule.Settles.{settles}
use crossbridge.Supervisor.Registry.{registry, requests, carry_out_all, Reach-refines}
use crossbridge.Tests.Supervisor.{base, files, two, two-Reach}

watched : In 0 two.watchers
unfolding init handle_event handle_registration is_registered group_map HashMap.contains_key
    HashMap.get HashMap.insert HashMap.remove try_create_dir slug_dir of_text join split
    create_dir_all make_dirs exists ancestors heads is_file path_eq acknowledge enroll write_message
    deliver deliver_one codes text_eq
watched = ground arith

abbrev hung_up : State
hung_up = record two {
  events = two.events ++ departed 0 ∷ [];
  watchers = filter (λ w. not (w == 0)) two.watchers;
}

hung_up-Reach : Reach base files 5 hung_up
hung_up-Reach = next two-Reach (hang_up 0 watched)

-- Nothing reaches the stream of the other server, whose departure is queued in its turn.
abbrev deaf : ℕ → Faults
deaf i = record {
  write = λ s m. if s == 4 then some (frame_too_large 1 0) else none;
  create_dir = λ p. none;
  remove_dir = λ p. none;
}

hung_up_queue : In (departed 0) hung_up.events
unfolding init handle_event handle_registration is_registered group_map HashMap.contains_key
    HashMap.get HashMap.insert HashMap.remove try_create_dir slug_dir of_text join split
    create_dir_all make_dirs exists ancestors heads is_file path_eq acknowledge enroll write_message
    deliver deliver_one codes text_eq
hung_up_queue = inl refl

settles_example :
    (k : ℕ) × (let t = drain deaf k hung_up in
      (t.events ≡ [])
      × ((id : ConnId) (rec : ConnRecord)
          → HashMap.get id t.conns ≡ some rec
          → (slug : Text)
          → view rec.write_half t.sent slug
            ≡ (is_registered t rec.group slug && not (slug == rec.slug)))
      × ((id : ConnId) (rec : ConnRecord)
          → HashMap.get id hung_up.conns ≡ some rec
          → In (departed id) hung_up.events
          → HashMap.get id t.conns ≡ none))
settles_example = settles (omega arith) hung_up-Reach deaf

Reach-refines_example : registry hung_up ≡ carry_out_all (requests hung_up-Reach)
Reach-refines_example = Reach-refines (omega arith) hung_up-Reach
