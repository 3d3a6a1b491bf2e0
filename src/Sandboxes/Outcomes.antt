-- ===== src/Sandboxes/Outcomes.antt =====
-- What each edit of the catalog does to a record: where it moves it, what it writes and what it keeps.
use kuma_box.Prelude.{
  eq_int, [], if◌then◌else◌, length, pos, text_eq, ℕ, ◌+◌, ◌≡◌, ◌⊎◌, Bool, true, false, Option,
  none, some, arith, Text, u64,
}
use kuma_box.Errdefs.{Result, ok, err}
use kuma_box.Types.Network.{NetworkSetup, backend_eq}
use kuma_box.Types.Sandbox.{
  SandboxState, creating, created, starting, running, stopping, stopped, error, deleting,
  SandboxFailure, SandboxConfig, Sandbox,
}
use kuma_box.Sandboxes.Changes.{
  resolved_name, created_name, Change, keep, write, transition_change, begin_start_change,
  begin_stop_change, begin_delete_change, mark_created_change, update_network_change,
}
use kuma_box.Sandboxes.Edits.{
  Edit, creates, fails_create, fails_start, starts, runs, stops, deletes, resizes, halts, change_of,
  state_eq_sound, IsAdmitted,
}

-- The lifecycle diagram.
abbrev pub follows : SandboxState → SandboxState → Bool
follows creating created = true
follows creating error = true
follows creating deleting = true
follows created starting = true
follows created deleting = true
follows starting running = true
follows starting error = true
follows starting stopped = true
follows running stopping = true
follows running stopped = true
follows stopping stopped = true
follows stopped starting = true
follows stopped deleting = true
follows error starting = true
follows error deleting = true
follows _ _ = false

-- What no edit changes: of the configuration only the NIC count and the network name may differ.
pub record SameIdentity (r r' : Sandbox) : Type 0 where
  pub id : r'.id ≡ r.id
  pub name : r'.config.name ≡ r.config.name
  pub image : r'.image_digest ≡ r.image_digest
  pub created : r'.created_at ≡ r.created_at
  pub vmm : r'.vmm ≡ r.vmm
  pub resources :
      record r'.config { nics = r.config.nics; network_name = r.config.network_name } ≡ r.config

-- Where an edit that moves a record moves it, the failure that it records, and the network that it
-- leaves.
abbrev pub target_of : Edit → SandboxState
target_of (creates setup) = created
target_of (fails_create f) = error
target_of (fails_start f) = error
target_of starts = starting
target_of runs = running
target_of stops = stopping
target_of deletes = deleting
target_of (resizes setup name) = running
target_of (halts from) = stopped

abbrev pub failure_of : Edit → Option SandboxFailure → Option SandboxFailure
failure_of (creates setup) before = before
failure_of (fails_create f) before = some f
failure_of (fails_start f) before = some f
failure_of _ before = none

abbrev pub network_of : Edit → NetworkSetup → NetworkSetup
network_of (creates setup) before = setup
network_of _ before = before

-- A record that is created takes the network name of its first interface, if it asks for NICs.
abbrev pub name_of : Edit → SandboxConfig → Text
name_of (creates setup) before =
    if eq_int before.nics (pos 0) then before.network_name else resolved_name [] setup.interfaces
name_of _ before = before.network_name

-- A move along the diagram, under the next generation.
pub record Moves (e : Edit) (now : ℕ) (r r' : Sandbox) : Type 0 where
  pub edge : follows r.state r'.state ≡ true
  pub next : r'.generation ≡ u64 (r.generation + 1)
  pub target : r'.state ≡ target_of e
  pub failure : r'.failed ≡ failure_of e r.failed
  pub network : r'.network ≡ network_of e r.network
  pub nics : r'.config.nics ≡ r.config.nics
  pub named : r'.config.network_name ≡ name_of e r.config
  pub updated : r'.updated_at ≡ now

-- A new network of a running sandbox, of the same backend and namespace and under the same
-- generation: the setup and the network name are those given, and there is one NIC for each
-- interface.
pub record IsResized (setup : NetworkSetup) (name : Text) (now : ℕ) (r r' : Sandbox) : Type 0 where
  pub before : r.state ≡ running
  pub after : r'.state ≡ running
  pub same : r'.generation ≡ r.generation
  pub backend : backend_eq r.network.backend setup.backend ≡ true
  pub namespace : text_eq r.network.namespace setup.namespace ≡ true
  pub network : r'.network ≡ setup
  pub nics : r'.config.nics ≡ pos (length setup.interfaces)
  pub named : r'.config.network_name ≡ name
  pub failure : r'.failed ≡ r.failed
  pub updated : r'.updated_at ≡ now

-- Only UpdateNetwork resizes.
abbrev pub Resizes : Edit → ℕ → Sandbox → Sandbox → Type 0
Resizes (resizes setup name) now r r' = IsResized setup name now r r'
Resizes _ now r r' = ⊥

pub Resizes-running :
    (e : Edit) (now : ℕ) (r r' : Sandbox)
    → Resizes e now r r'
    → (r.state ≡ running) × (r'.state ≡ running) × (r'.generation ≡ r.generation)
Resizes-running (resizes setup name) now r r' h = (h.before, h.after, h.same)
Resizes-running _ now r r' h = absurd h

-- A call that finds its work done: only BeginStart, BeginStop and BeginDelete look for that.
abbrev pub Repeats : Edit → Sandbox → Type 0
Repeats starts r = r.state ≡ starting
Repeats stops r = r.state ≡ stopping
Repeats deletes r = r.state ≡ deleting
Repeats _ r = ⊥

abbrev pub Effect : Edit → ℕ → ℕ → Sandbox → Result Change → Type 0
Effect edit' expected now r (err e) = Unit
Effect edit' expected now r (ok keep) = (r.generation ≡ expected) × Repeats edit' r
Effect edit' expected now r (ok (write r')) =
    (r.generation ≡ expected) × SameIdentity r r' × (Moves edit' now r r' ⊎ Resizes edit' now r r')

update_network_change-Effect :
    (setup : NetworkSetup) (name : Text) (expected now : ℕ) (r : Sandbox)
    → Effect (resizes setup name) expected now r (update_network_change setup name expected now r)
unfolding update_network_change
update_network_change-Effect setup name expected now r =
    ground (arith, state_eq_sound r.state running)

pub change_of-Effect :
    (e : Edit) (expected now : ℕ) (r : Sandbox)
    → IsAdmitted e
    → Effect e expected now r (change_of e expected now r)
unfolding change_of transition_change begin_start_change begin_stop_change begin_delete_change
    mark_created_change created_name
change_of-Effect (creates setup) expected now r a = ground (arith, state_eq_sound r.state creating)
change_of-Effect (fails_create f) expected now r a = ground (arith, state_eq_sound r.state creating)
change_of-Effect (fails_start f) expected now r a = ground (arith, state_eq_sound r.state starting)
change_of-Effect starts expected now r a = ground (arith, state_eq_sound r.state starting)
change_of-Effect runs expected now r a = ground (arith, state_eq_sound r.state starting)
change_of-Effect stops expected now r a =
    ground (arith, state_eq_sound r.state running, state_eq_sound r.state stopping)
change_of-Effect deletes expected now r a = ground (arith, state_eq_sound r.state deleting)
change_of-Effect (resizes setup name) expected now r a =
    update_network_change-Effect setup name expected now r
change_of-Effect (halts from) expected now r a = ground (arith, state_eq_sound r.state from)
