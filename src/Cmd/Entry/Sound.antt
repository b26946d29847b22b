-- ===== src/Cmd/Entry/Sound.antt =====
-- `startClustered` of cmd/ttobserver.go: a node of the cluster does not panic.
use ttobserver_v.Base.{none, ◌≡◌, ◌≢◌, true, false}
use ttobserver_v.Shared.Database.{Database, is_nil_pointer}
use ttobserver_v.Producer.Announcer.{Announcer}
use ttobserver_v.Observer.Settings.{Observer}
use ttobserver_v.Observer.Engage.{stopped, can_tick}
use ttobserver_v.Observer.Life.{unset, or_default}
use ttobserver_v.Cmd.Entry.{exited, no_fuel, panicked, Phase, looking, leading, ended}

-- A node that looks for the master has no channel that `Close` would close, no nil pointer as its
-- database, and a delay of which `Engage` can make a ticker; one that leads has what `Engage` uses; the
-- program has ended only with a status, if at all.
abbrev pub IsSound : {W X P : Type 0} → Phase W X P → Type 0
IsSound (looking parts all) =
    (parts.stopped ≡ unset)
    × (is_nil_pointer parts.db ≡ false)
    × (can_tick (or_default parts.delay) ≡ true)
IsSound (leading parts all) = (parts.db ≢ none) × (parts.announcer ≢ none)
IsSound (ended panicked) = ⊥
IsSound (ended no_fuel) = ⊥
IsSound (ended (exited status)) = Unit
