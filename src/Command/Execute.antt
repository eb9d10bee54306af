-- ===== src/Command/Execute.antt =====
-- mizu_command_service_execute and the queries on a registered service.
use embedded_library.Prelude.{
  ℕ, ◌+◌, ◌%◌, ◌^◌, ◌<◌, ◌≡◌, refl, ◌∙◌, true, false, Option, none, some, List, [], ◌∷◌, length,
  get_elem?, arith,
}
use embedded_library.Status.{Status, out_of_range}
use embedded_library.Registry.{all_entries, has_id}
use embedded_library.Registry.Unique.{find_item_lem, find_entry_unique, find_entry-none}
use embedded_library.Command.{
  Descriptor, CommandService, id_of, find, call_handler, outcome, execute,
}
use embedded_library.Command.Init.{IsRegistered}

module _ {W : Type 0} where
  -- The registered commands, in registration order.
  abbrev pub commands_of : CommandService W → List (Descriptor W)
  commands_of s = all_entries s.group_count s.groups

  pub find-registered :
      (s : CommandService W) (i : ℕ) (c : Descriptor W)
      → IsRegistered s
      → get_elem? (commands_of s) i ≡ some c
      → find s c.id ≡ some c
  unfolding find
  find-registered s i c v h =
      find_item_lem id_of c.id s.group_count s.groups
      ∙ find_entry_unique id_of (commands_of s) i c v.unique h

  pub find-unregistered :
      (s : CommandService W) (id : ℕ) → has_id id_of id (commands_of s) ≡ false → find s id ≡ none
  unfolding find
  find-unregistered s id h =
      find_item_lem id_of id s.group_count s.groups ∙ find_entry-none id_of id (commands_of s) h

  -- The snapshot after a command with its status.
  abbrev pub recorded : CommandService W → ℕ → Status → CommandService W
  recorded s id status = record s {
    snapshot = record {
      command_id = id;
      status = status;
      sequence = (s.snapshot.sequence + 1) % 2 ^ 32;
      has_result = true;
    };
  }

  -- What execute does when the dispatch of the command comes out as `r`.
  pub execute-outcome :
      (s : CommandService W) (id : ℕ) (w : W) (r : Status × W)
      → s.initialized ≡ true
      → outcome s id w ≡ r
      → execute (some s) id w ≡ (r.0, some (recorded s id r.0), r.1)
  unfolding execute
  execute-outcome s id w r live e = simp (live, e)

  pub outcome-registered :
      (s : CommandService W) (i : ℕ) (c : Descriptor W) (handler : ℕ → W → Status × W) (w : W)
      → IsRegistered s
      → get_elem? (commands_of s) i ≡ some c
      → c.handler ≡ some handler
      → outcome s c.id w ≡ handler c.context w
  unfolding outcome call_handler
  outcome-registered s i c handler w v h e = ground (arith, find-registered s i c v h, e)

  pub outcome-unregistered :
      (s : CommandService W) (id : ℕ) (w : W)
      → has_id id_of id (commands_of s) ≡ false
      → outcome s id w ≡ (out_of_range, w)
  unfolding outcome
  outcome-unregistered s id w h = ground (arith, find-unregistered s id h)

  -- On a registered service, executing the id of any registered command runs that command's handler, on
  -- its own context, and once; the handler's status is returned and recorded under the id with the
  -- next sequence number, and the registry does not change.
  pub execute-registered :
      (s : CommandService W) (i : ℕ) (c : Descriptor W) (handler : ℕ → W → Status × W) (w : W)
      → IsRegistered s
      → get_elem? (commands_of s) i ≡ some c
      → c.handler ≡ some handler
      → let (status, w') = handler c.context w in
        execute (some s) c.id w ≡ (status, some (recorded s c.id status), w')
  execute-registered s i c handler w v h e =
      execute-outcome s c.id w (handler c.context w) v.live
        (outcome-registered s i c handler w v h e)

  -- Executing an id that no registered command has runs nothing, and returns and records OUT_OF_RANGE.
  pub execute-unregistered :
      (s : CommandService W) (id : ℕ) (w : W)
      → s.initialized ≡ true
      → has_id id_of id (commands_of s) ≡ false
      → execute (some s) id w ≡ (out_of_range, some (recorded s id out_of_range), w)
  execute-unregistered s id w live h =
      execute-outcome s id w (out_of_range, w) live (outcome-unregistered s id w h)

  -- The requests of a list, executed one after the other.
  unfoldable pub execute_all :
      Option (CommandService W) → List ℕ → W → Option (CommandService W) × W
  execute_all s [] w = (s, w)
  execute_all s (id ∷ ids) w = let (status, s', w') = execute s id w in execute_all s' ids w'

  pub execute_all-step :
      (s : CommandService W) (id : ℕ) (ids : List ℕ) (w : W)
      → s.initialized ≡ true
      → let r = outcome s id w in
        execute_all (some s) (id ∷ ids) w ≡ execute_all (some (recorded s id r.0)) ids r.1
  unfolding execute_all
  execute_all-step s id ids w live = simp (execute-outcome s id w (outcome s id w) live refl)

  -- Executing a list of requests on a running service, registered or not, failing or not, the service
  -- keeps its registry, and its sequence number grows by the number of the requests, modulo 2^32.
  pub execute_all-counts :
      (s : CommandService W) (ids : List ℕ) (w : W)
      → s.initialized ≡ true
      → s.snapshot.sequence < 2 ^ 32
      → (s' : CommandService W) × (w' : W) × (execute_all (some s) ids w ≡ (some s', w'))
        × (s'.snapshot.sequence ≡ (s.snapshot.sequence + length ids) % 2 ^ 32)
        × (commands_of s' ≡ commands_of s)
        × (s'.initialized ≡ true)
  unfolding execute_all
  execute_all-counts s [] w live small = (s, w, refl, omega arith, refl, live)
  execute_all-counts s (id ∷ ids) w live small =
      let r = outcome s id w in
      let (s', w', e, n, same, on) =
        execute_all-counts (recorded s id r.0) ids r.1 live (omega arith) in
      (s', w', execute_all-step s id ids w live ∙ e, omega (arith, n), same, on)
