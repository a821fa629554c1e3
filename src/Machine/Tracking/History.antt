-- ===== src/Machine/Tracking/History.antt =====
-- What is tracked, seen as what a client shows after a history of packets: each boss bar, objective
-- and slot is on or off.
use frame_mc.Prelude.{ℕ, ◌≡◌, refl, arith, List, [], ◌∷◌, Bool, true, false, ◌&&◌, ◌==◌, list_eq}
use frame_mc.Prelude.{if◌then◌else◌, inl, inr}
use frame_mc.Error.{Result-cases, ok, err}
use frame_mc.Packet.{RawPacket}
use frame_mc.Play.BossBar
use frame_mc.Play.ScoreboardObjective
use frame_mc.Play.DisplayObjective
use frame_mc.Script.Hooks.{is_empty}
use frame_mc.Machine.{World, PlayStateMachine}
use frame_mc.Machine.Sets.{contains, contains-insert, contains-remove, bytes_key, nat_key, nat_eq}
use frame_mc.Machine.Tracking.{
  action_add, action_create, track, track_boss_bars, track_objectives, track_slots, apply_boss_bar,
  apply_objective, apply_display,
}

-- A packet switches the boss bar on, switches it off, or leaves it.
pub boss_bar_after : ℕ → List ℕ → RawPacket → Bool → Bool
boss_bar_after v uuid packet shown =
    if packet.id == BossBar.packet_id_for_version v
    then elim (BossBar.decode packet v) [
      | err e ↦ shown
      | ok bb ↦
          if (bb.action == action_add) && list_eq bb.uuid uuid
          then true
          else if (bb.action == BossBar.action_remove) && list_eq bb.uuid uuid
          then false
          else shown
    ]
    else shown

pub objective_after : ℕ → List ℕ → RawPacket → Bool → Bool
objective_after v name packet shown =
    if packet.id == ScoreboardObjective.packet_id_for_version v
    then elim (ScoreboardObjective.decode packet v) [
      | err e ↦ shown
      | ok obj ↦
          if (obj.action == action_create) && list_eq obj.name name
          then true
          else if (obj.action == ScoreboardObjective.action_remove) && list_eq obj.name name
          then false
          else shown
    ]
    else shown

pub slot_after : ℕ → ℕ → RawPacket → Bool → Bool
slot_after v slot packet shown =
    if packet.id == DisplayObjective.packet_id_for_version v
    then elim (DisplayObjective.decode packet v) [
      | err e ↦ shown
      | ok disp ↦
          if nat_eq disp.position slot then (if is_empty disp.name then false else true) else shown
    ]
    else shown

-- The state of one thing after a history.
pub replay : (RawPacket → Bool → Bool) → List RawPacket → Bool → Bool
replay effect [] shown = shown
replay effect (p ∷ ps) shown = replay effect ps (effect p shown)

contains-track_boss_bars :
    (v : ℕ) (uuid : List ℕ) (packet : RawPacket) (bars : List (List ℕ))
    → contains (track_boss_bars v packet bars) uuid
      ≡ boss_bar_after v uuid packet (contains bars uuid)
unfolding track_boss_bars apply_boss_bar boss_bar_after
contains-track_boss_bars v uuid packet bars = elim (Result-cases (BossBar.decode packet v)) [
  | inl (bb, e) ↦
      ground (arith, contains-insert bb.uuid uuid bars, contains-remove bb.uuid uuid bars)
  | inr (x, e) ↦ ground arith
]

contains-track_objectives :
    (v : ℕ) (name : List ℕ) (packet : RawPacket) (names : List (List ℕ))
    → contains (track_objectives v packet names) name
      ≡ objective_after v name packet (contains names name)
unfolding track_objectives apply_objective objective_after
contains-track_objectives v name packet names =
    elim (Result-cases (ScoreboardObjective.decode packet v)) [
      | inl (obj, e) ↦
          ground (arith, contains-insert obj.name name names, contains-remove obj.name name names)
      | inr (x, e) ↦ ground arith
    ]

contains-track_slots :
    (v slot : ℕ) (packet : RawPacket) (slots : List ℕ)
    → contains (track_slots v packet slots) slot ≡ slot_after v slot packet (contains slots slot)
unfolding track_slots apply_display slot_after
contains-track_slots v slot packet slots = elim (Result-cases (DisplayObjective.decode packet v)) [
  | inl (d, e) ↦
      ground (arith, contains-insert d.position slot slots, contains-remove d.position slot slots)
  | inr (x, e) ↦ ground arith
]

module _ (w : World) where
  pub track_all : List RawPacket → PlayStateMachine w → PlayStateMachine w
  track_all [] m = m
  track_all (p ∷ ps) m = track_all ps (track w p m)

  -- After any history of packets the machine tracks exactly the boss bars, objectives and slots that
  -- the history leaves on, counted from those that it tracked before.
  pub track_all-replay :
      (packets : List RawPacket) (m : PlayStateMachine w) (uuid name : List ℕ) (slot : ℕ)
      → (contains (track_all packets m).active_boss_bars uuid
          ≡ replay
              (boss_bar_after m.session.protocol_version uuid)
              packets
              (contains m.active_boss_bars uuid))
        × (contains (track_all packets m).active_scoreboard_objectives name
            ≡ replay
                (objective_after m.session.protocol_version name)
                packets
                (contains m.active_scoreboard_objectives name))
        × (contains (track_all packets m).active_display_slots slot
            ≡ replay
                (slot_after m.session.protocol_version slot)
                packets
                (contains m.active_display_slots slot))
  unfolding track_all replay track
  track_all-replay [] m uuid name slot = (refl, refl, refl)
  track_all-replay (p ∷ ps) m uuid name slot =
      let v = m.session.protocol_version in
      let ih = track_all-replay ps (track w p m) uuid name slot in
      (
        rw (← contains-track_boss_bars v uuid p m.active_boss_bars) ih.0,
        rw (← contains-track_objectives v name p m.active_scoreboard_objectives) ih.1,
        rw (← contains-track_slots v slot p m.active_display_slots) ih.2,
      )
