-- ===== src/Menu/Init/Accepts.antt =====
-- What mizu_menu_init has checked when it returns OK.
use embedded_library.Prelude.{
  is_null, elements, ℕ, zero, suc, ◌^◌, ◌≤◌, ◌<◌, ◌≡◌, refl, Bool, true, false, Option, none, some,
  List, [], ◌∷◌, length, get_or, take, arith,
}
use embedded_library.Status.{Status, ok, is_ok}
use embedded_library.Parameter.{Floats, Descriptor}
use embedded_library.Parameter.Service as PS
use embedded_library.Command as CS
use embedded_library.Menu.{Item, RootItem, MenuState, Config, Menu}
use embedded_library.Menu.Navigation.{size_of, IsValid}
use embedded_library.Menu.Init.{
  bind_parameter, bind_command, validate_item, validate_items, validate_root, validate_roots,
  validate_config, fresh_menu, init,
}

module _ {W : Type 0} where
  find_command_missing :
      (s : Option (CS.CommandService W)) (id : ℕ)
      → is_null (CS.get_descriptor_by_id s id false).1 ≡ true
      → is_ok (CS.get_descriptor_by_id s id false).0 ≡ false
  unfolding CS.get_descriptor_by_id
  find_command_missing none id h = refl
  find_command_missing (some s) id h = ground arith

  bound_command :
      (o : Status × Option (CS.Descriptor W)) (exists : Bool)
      → (is_null o.1 ≡ true → is_ok o.0 ≡ false)
      → bind_command o.0 o.1 exists ≡ ok
      → (c : CS.Descriptor W) × (o.1 ≡ some c)
  bound_command (found, none) exists missing h = absurd (cc (missing refl))
  bound_command (found, some c) exists missing h = (c, refl)

module _ {fp : Floats} {W : Type 0} where
  -- What an item names can be found: a writable parameter, or a command.
  abbrev pub IsBound : Config fp W → Item → Type 0
  IsBound config (Item.parameter_item id) =
      (d : Descriptor fp W) × ((PS.get_descriptor_by_id config.parameters id false).1 ≡ some d)
      × (d.writable ≡ true)
  IsBound config (Item.command_item id _) =
      (c : CS.Descriptor W) × ((CS.get_descriptor_by_id config.commands id false).1 ≡ some c)

  abbrev pub AreBound : Config fp W → List Item → Type 0
  AreBound config [] = Unit
  AreBound config (item ∷ items) = IsBound config item × AreBound config items

  -- The root leads to entries, and the items of a group are bound.
  abbrev pub IsUsable : Config fp W → RootItem → Type 0
  IsUsable config (RootItem.group_root none) = ⊥
  IsUsable config (RootItem.group_root (some g)) =
      (0 < g.item_count) × AreBound config (take g.item_count (elements g.items))
  IsUsable config (RootItem.page_root none) = ⊥
  IsUsable config (RootItem.page_root (some p)) = 0 < p.page_count

  abbrev pub AreUsable : Config fp W → ℕ → List RootItem → Type 0
  AreUsable config zero roots = Unit
  AreUsable config (suc n) [] = Unit
  AreUsable config (suc n) (r ∷ roots) = IsUsable config r × AreUsable config n roots

  find_missing :
      (s : Option (PS.ParameterService fp W)) (id : ℕ)
      → is_null (PS.get_descriptor_by_id s id false).1 ≡ true
      → is_ok (PS.get_descriptor_by_id s id false).0 ≡ false
  unfolding PS.find
  find_missing none id h = refl
  find_missing (some s) id h = ground arith

  bound_parameter :
      (o : Status × Option (Descriptor fp W)) (exists : Bool)
      → (is_null o.1 ≡ true → is_ok o.0 ≡ false)
      → bind_parameter o.0 o.1 exists ≡ ok
      → (d : Descriptor fp W) × (o.1 ≡ some d) × (d.writable ≡ true)
  bound_parameter (found, none) exists missing h = absurd (cc (missing refl))
  bound_parameter (found, some d) exists missing h = (d, refl, ground arith)

  validate_item-IsBound :
      (config : Config fp W) (i j : ℕ) (item : Item)
      → validate_item config i j item ≡ ok
      → IsBound config item
  unfolding validate_item
  validate_item-IsBound config i j (Item.parameter_item id) h =
      bound_parameter (PS.get_descriptor_by_id config.parameters id false) _
        (find_missing config.parameters id) h
  validate_item-IsBound config i j (Item.command_item id confirm) h =
      bound_command (CS.get_descriptor_by_id config.commands id false) _
        (find_command_missing config.commands id) h

  validate_items-AreBound :
      (config : Config fp W) (i j : ℕ) (items : List Item)
      → validate_items config i j items ≡ ok
      → AreBound config items
  unfolding validate_items
  validate_items-AreBound config i j [] h = tt
  validate_items-AreBound config i j (item ∷ items) h = (
    validate_item-IsBound config i j item (ground arith),
    validate_items-AreBound config i (suc j) items (ground arith),
  )

  validate_root-IsUsable :
      (config : Config fp W) (i : ℕ) (r : RootItem)
      → validate_root config i r ≡ ok
      → IsUsable config r
  unfolding validate_root
  validate_root-IsUsable config i (RootItem.group_root none) h = cc
  validate_root-IsUsable config i (RootItem.group_root (some g)) h = (
    ground arith,
    validate_items-AreBound config i 0 (take g.item_count (elements g.items)) (ground arith),
  )
  validate_root-IsUsable config i (RootItem.page_root none) h = cc
  validate_root-IsUsable config i (RootItem.page_root (some p)) h = ground arith

  validate_roots-AreUsable :
      (config : Config fp W) (i n : ℕ) (roots : List RootItem)
      → validate_roots config i n roots ≡ ok
      → AreUsable config n roots
  unfolding validate_roots
  validate_roots-AreUsable config i zero roots h = tt
  validate_roots-AreUsable config i (suc n) [] h = tt
  validate_roots-AreUsable config i (suc n) (r ∷ roots) h = (
    validate_root-IsUsable config i r (ground arith),
    validate_roots-AreUsable config (suc i) n roots (ground arith),
  )

  usable_size : (config : Config fp W) (r : RootItem) → IsUsable config r → 0 < size_of r
  usable_size config (RootItem.group_root none) u = elim u [ ]
  usable_size config (RootItem.group_root (some g)) u = u.0
  usable_size config (RootItem.page_root none) u = elim u [ ]
  usable_size config (RootItem.page_root (some p)) u = u

  usable_at :
      (config : Config fp W) (n : ℕ) (roots : List RootItem) (i : ℕ)
      → AreUsable config n roots
      → n ≤ length roots
      → i < n
      → 0 < size_of (get_or roots i (RootItem.page_root none))
  usable_at config zero roots i u l b = absurd (omega arith)
  usable_at config (suc n) [] i u l b = absurd (omega arith)
  usable_at config (suc n) (r ∷ roots) zero u l b = usable_size config r u.0
  usable_at config (suc n) (r ∷ roots) (suc i) u l b =
      usable_at config n roots i u.1 (omega arith) (omega arith)

  validate_config-roots :
      (config : Config fp W)
      → validate_config config ≡ ok
      → (0 < config.root_item_count)
        × (validate_roots config 0 config.root_item_count (elements config.root_items) ≡ ok)
        × (config.feedback_duration_ms < 2 ^ 31)
  unfolding validate_config
  validate_config-roots config h = (ground arith, ground arith, ground arith)

  init-ok :
      (m m' : Menu fp W) (config : Config fp W)
      → init (some m) (some config) ≡ (ok, some m')
      → (validate_config config ≡ ok) × (fresh_menu config ≡ m')
  unfolding init
  init-ok m m' config h = (ground arith, ground arith)

  -- mizu_menu_init that returns OK, on an array of at least the given number of roots, with all counts of
  -- the configuration below 2^32, leaves a valid menu that shows the root list; every parameter item of a
  -- group is bound to a writable registered parameter and every command item to a registered command, and
  -- the feedback time is less than 2^31 ms.
  pub init-IsValid :
      (m m' : Menu fp W) (config : Config fp W)
      → config.root_item_count ≤ length (elements config.root_items)
      → config.root_item_count < 2 ^ 32
      → ((i : ℕ)
          → size_of (get_or (elements config.root_items) i (RootItem.page_root none)) < 2 ^ 32)
      → init (some m) (some config) ≡ (ok, some m')
      → IsValid m'
        × (m'.state ≡ MenuState.root_state)
        × AreUsable config config.root_item_count (elements config.root_items)
        × (m'.config.feedback_duration_ms < 2 ^ 31)
  init-IsValid m m' config l b sizes h =
      let (passed, same) = init-ok m m' config h in
      let (filled, roots, time) = validate_config-roots config passed in
      let usable =
        validate_roots-AreUsable config 0 config.root_item_count (elements config.root_items)
          roots in
      rw (← same) (
        record {
          live = refl;
          short = b;
          sound = λ i k. (
            usable_at config config.root_item_count (elements config.root_items) i usable l k,
            sizes i,
          );
          on_root = filled;
          placed = tt;
        },
        refl,
        usable,
        time,
      )
