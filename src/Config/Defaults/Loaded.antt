-- ===== src/Config/Defaults/Loaded.antt =====
-- What the value table holds after `InitDeviceResources`.
use device_wiresink_go.Prelude.{
  ◌≡◌, refl, ◌∙◌, ap, arith, List, [], ◌∷◌, Option, none, some, if◌then◌else◌, inl, inr, Text,
  Assoc, text_eq, lookup, insert, lookup-insert,
}
use device_wiresink_go.Prelude.Outcome.{Result-cases, ok, err}
use device_wiresink_go.Value.{Value}
use device_wiresink_go.Config.Values.{get_device_value}
use device_wiresink_go.Config.Defaults.{
  DeviceEntry, DeviceResource, Files, Registry, write_defaults, load_entry, profile_of,
  load_entries, init_device_resources,
}

module _ (parse_default : Text → Text → Value) where
  -- The default that a profile gives a resource: the last one listed counts.
  unfoldable pub default_of : List DeviceResource → Text → Option Value → Option Value
  default_of [] s before = before
  default_of (dr ∷ rest) s before =
      default_of rest s
        (if text_eq dr.name s then some (parse_default dr.default_value dr.value_type) else before)

  pub lookup-write_defaults :
      (drs : List DeviceResource) (fresh : Assoc Value) (s : Text)
      → lookup s (write_defaults parse_default drs fresh) ≡ default_of drs s (lookup s fresh)
  unfolding write_defaults default_of
  lookup-write_defaults [] fresh s = refl
  lookup-write_defaults (dr ∷ rest) fresh s =
      lookup-write_defaults rest
        (insert dr.name (parse_default dr.default_value dr.value_type) fresh) s
      ∙ ap (default_of rest s)
          (lookup-insert dr.name s (parse_default dr.default_value dr.value_type) fresh)

  module _ (files : Files) (dir : Text) where
    -- What the table is to hold after the devices were loaded: the defaults of the last entry of the
    -- device, and for a device with no entry what it held before.
    unfoldable pub loaded : List DeviceEntry → Text → Text → Option Value → Option Value
    loaded [] d s before = before
    loaded (entry ∷ rest) d s before = elim (profile_of files dir entry) [
      | err e ↦ before
      | ok drs ↦ loaded rest d s (if text_eq entry.name d then default_of drs s none else before)
    ]

    get_device_value-load_entry :
        (entry : DeviceEntry) (drs : List DeviceResource) (d s : Text) (g : Registry)
        → get_device_value d s (load_entry parse_default entry drs g).values
          ≡ (if text_eq entry.name d then default_of drs s none else get_device_value d s g.values)
    unfolding load_entry get_device_value
    get_device_value-load_entry entry drs d s g = ground (
      arith,
      lookup-insert entry.name d (write_defaults parse_default drs []) g.values,
      lookup-write_defaults drs [] s,
      lookup-nil s,
    )
      where
        lookup-nil : (k : Text) → lookup {V = Value} k [] ≡ none
        lookup-nil k = unfold lookup in refl

    get_device_value-load_entries :
        (entries : List DeviceEntry) (d s : Text) (g : Registry)
        → get_device_value d s (load_entries parse_default files dir entries g).0.values
          ≡ loaded entries d s (get_device_value d s g.values)
    unfolding load_entries loaded
    get_device_value-load_entries [] d s g = refl
    get_device_value-load_entries (entry ∷ rest) d s g =
        elim (Result-cases (profile_of files dir entry)) [
          | inl (drs, e) ↦
              rw (load_entries, loaded, e)
                (get_device_value-load_entries rest d s (load_entry parse_default entry drs g)
                  ∙ ap (loaded rest d s) (get_device_value-load_entry entry drs d s g))
          | inr (problem, e) ↦ rw (load_entries, loaded, e) refl
        ]

    -- Where the list of devices is read, the value table holds for each of its devices the defaults
    -- of the profile of its last entry, the last default of each resource and no other value, and
    -- for every other device what it held before; at the first profile that cannot be read the
    -- loading stops, and what was loaded before it stays.
    pub get_device_value-init_device_resources :
        (path raw : Text) (entries : List DeviceEntry) (d s : Text) (g : Registry)
        → files.read_file path ≡ ok raw
        → files.devices_yaml raw ≡ ok entries
        → get_device_value d s (init_device_resources parse_default files dir path g).0.values
          ≡ loaded entries d s (get_device_value d s g.values)
    unfolding init_device_resources
    get_device_value-init_device_resources path raw entries d s g e f =
        rw (init_device_resources, e, f) (get_device_value-load_entries entries d s g)
