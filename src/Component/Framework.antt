-- ===== src/Component/Framework.antt =====
-- cpp/SinkSDDS_base.cpp: what the base class of the component registers with the framework, and how it is
-- started and stopped. The framework's classes Component and ThreadedComponent are a parameter.
use text.Mathlib.Text.{◌==◌ as str_eq}
use sink_sdds.Base.{◌≡◌, refl, String, Bool, Option, none, some, if◌then◌else◌}
use sink_sdds.Float.{FloatOps}
use sink_sdds.Processor.Types.{Env}
use sink_sdds.Processor.Lifecycle.{Uninitialized, create as processor_create}
use sink_sdds.Component.{create, get_status}
use sink_sdds.Settings.{
  NetworkSettings, SddsSettings, AttachSettings, OverrideSddsHeader, Status,
  default_network_settings, default_sdds_settings, default_attach_settings, default_override,
}

-- The value that a property begins with, by its structure.
data Value : Type 0 where
  network : NetworkSettings → Value
  sdds : SddsSettings → Value
  attaching : AttachSettings → Value
  overriding : OverrideSddsHeader → Value
  shown : Status → Value

data Mode : Type 0 where
  readwrite readonly : Mode

-- The arguments of `addProperty` that differ.
record Property : Type 0 where
  id : String
  name : String
  mode : Mode
  value : Value

data Port : Type 0 where
  short_in float_in octet_in sdds_out : Port

-- The framework, on a state of its own; `stop_thread` also tells whether the thread has ended.
record Framework (S : Type 0) : Type 0 where
  add_property : Property → S → S
  add_port : String → Port → S → S
  delete_port : Port → S → S
  start : S → S
  start_thread : S → S
  stop : S → S
  stop_thread : S → S × Bool
  release : S → S

module _ {S : Type 0} (F : Framework S) (floats : FloatOps) where
  open F use {add_property, add_port, delete_port, start, start_thread, stop, stop_thread}

  unfoldable load_properties : S → S
  load_properties s =
      let a =
        add_property
          (record {
            id = "network_settings";
            name = "";
            mode = readwrite;
            value = network default_network_settings;
          })
          s in
      let b =
        add_property
          (record {
            id = "sdds_settings";
            name = "";
            mode = readwrite;
            value = sdds default_sdds_settings;
          })
          a in
      let c =
        add_property
          (record {
            id = "sdds_attach_settings";
            name = "sdds_attach_settings";
            mode = readwrite;
            value = attaching default_attach_settings;
          })
          b in
      let d =
        add_property
          (record {
            id = "override_sdds_header";
            name = "override_sdds_header";
            mode = readwrite;
            value = overriding (default_override floats);
          })
          c in
      add_property
        (record {
          id = "status";
          name = "status";
          mode = readonly;
          value = shown (record { current_stream = ""; stream_on_deck = "" });
        })
        d

  -- The constructor, and the destructor.
  unfoldable construct : S → S
  unfolding load_properties
  construct s = add_port "dataSddsOut" sdds_out (
      add_port "dataOctetIn" octet_in
        (add_port "dataFloatIn" float_in (add_port "dataShortIn" short_in (load_properties s))))

  unfoldable destruct : S → S
  destruct s =
      delete_port sdds_out (delete_port octet_in (delete_port float_in (delete_port short_in s)))

  unfoldable start_base : S → S
  start_base s = start_thread (start s)

  -- `false` stands for StopError.
  unfoldable stop_base : S → S × Bool
  stop_base s = stop_thread (stop s)

-- What the registered properties are, for a framework that finds a property by its id.
module _ {S : Type 0} (F : Framework S) (E : Env) (get : S → String → Option Property)
    (finds : (p : Property) (s : S) (id : String)
      → get (F.add_property p s) id ≡ (if str_eq p.id id then some p else get s id))
    (keeps : (name : String) (port : Port) (s : S) (id : String)
      → get (F.add_port name port s) id ≡ get s id) where
  value_of : Option Property → Option Value
  value_of none = none
  value_of (some p) = some p.value

  -- After the base class is constructed, the framework finds each property of the component with the
  -- value that the component's member has after its construction.
  construct-create :
      (s : S) (f x o : Uninitialized)
      → let c = create E f x o in
        let base = construct F E.floats s in
        (value_of (get base "network_settings") ≡ some (network c.network_settings))
        × (value_of (get base "sdds_settings") ≡ some (sdds c.sdds_settings))
        × (value_of (get base "sdds_attach_settings") ≡ some (attaching c.attach_settings))
        × (value_of (get base "override_sdds_header") ≡ some (overriding c.override_sdds_header))
        × (value_of (get base "status") ≡ some (shown (get_status c)))
  unfolding construct load_properties create value_of get_status processor_create
  construct-create s f x o = (
    rw (keeps, keeps, keeps, keeps, finds, finds, finds, finds, finds) refl,
    rw (keeps, keeps, keeps, keeps, finds, finds, finds, finds) refl,
    rw (keeps, keeps, keeps, keeps, finds, finds, finds) refl,
    rw (keeps, keeps, keeps, keeps, finds, finds) refl,
    rw (keeps, keeps, keeps, keeps, finds) refl,
  )
