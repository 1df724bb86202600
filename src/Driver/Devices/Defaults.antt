-- ===== src/Driver/Devices/Defaults.antt =====
-- The values of a device after `AddDevice` of internal/driver/wiresinkdriver.go.
use device_wiresink_go.Prelude.{◌≡◌, arith, List, [], ◌∷◌, none, some, if◌then◌else◌, Text, text_eq}
use device_wiresink_go.Value.{Value}
use device_wiresink_go.State.{Gateway}
use device_wiresink_go.Config.Values.{Values, device_init, set_device_value, get_device_value}
use device_wiresink_go.Config.Values.ReadBack.{get_device_value-set_device_value}
use device_wiresink_go.Config.Defaults.{DeviceResource}
use device_wiresink_go.Config.Defaults.Loaded.{default_of}
use device_wiresink_go.Driver.Devices.{Metadata, init_resources, add_device, update_device}

module _ (parse_default : Text → Text → Value) where
  pub get_device_value-init_resources :
      (device e s : Text) (drs : List DeviceResource) (values : Values)
      → get_device_value e s (init_resources parse_default device drs values) ≡ (
          if text_eq device e
          then default_of parse_default drs s (get_device_value e s values)
          else get_device_value e s values)
  unfolding init_resources default_of device_init
  get_device_value-init_resources device e s [] values = ground arith
  get_device_value-init_resources device e s (dr ∷ rest) values =
      let v : Value = parse_default dr.default_value dr.value_type in
      ground (
        arith,
        get_device_value-init_resources device e s rest (set_device_value device dr.name v values),
        get_device_value-set_device_value device dr.name e s v values,
      )

  -- Where the SDK knows the device and its profile, `AddDevice` ends without an error, sets each
  -- resource of the profile to its default, the last one listed, and leaves every other resource
  -- and every other device as they were, and so does `UpdateDevice`; only values change.
  pub add_device-defaults :
      (sdk : Metadata) (device profile : Text) (drs : List DeviceResource) (g : Gateway)
      → sdk.get_device_by_name device ≡ some profile
      → sdk.get_profile_by_name profile ≡ some drs
      → (values : Values) × (add_device sdk parse_default device g
          ≡ (record g { values = values }, none))
        × (update_device sdk parse_default device g ≡ (record g { values = values }, none))
        × ((e s : Text)
            → get_device_value e s values ≡ (
                if text_eq device e
                then default_of parse_default drs s (get_device_value e s g.values)
                else get_device_value e s g.values))
  unfolding add_device update_device
  add_device-defaults sdk device profile drs g p q = (
    init_resources parse_default device drs g.values,
    ground arith,
    ground arith,
    λ e s. get_device_value-init_resources device e s drs g.values,
  )
