-- ===== src/Processor/Calls.antt =====
-- The calls on the SDDS output port: `callDetach`, `callAttach` and `pushSri` of
-- cpp/BulkIOToSDDSProcessor.cpp.
pub mod Annotation
use sink_sdds.Base.{ℕ, String, false, Option, [], ◌∷◌, ◌++◌, if◌then◌else◌, ◌==◌}
use sink_sdds.Packet.Bytes.{htons}
use sink_sdds.Processor.Types.{
  Native, octet, short, float, Env, Call, attach, detach, push_sri, long, Sri, DataFormat, sdds_cb,
  sdds_sb, sdds_ci, sdds_si, sdds_cf, sdds_sf, StreamDefinition, Processor,
}
use sink_sdds.Processor.Keywords.{add_modify_keyword}

abbrev pub data_ref_str_little : ℕ
data_ref_str_little = 43981

abbrev pub data_ref_str_big : ℕ
data_ref_str_big = 52651

abbrev pub record_call : Call → Processor → Processor
record_call c p = record p { calls = p.calls ++ c ∷ [] }

-- The flag is cleared before the call, whose exceptions are caught.
unfoldable pub call_detach : Processor → Processor
call_detach p =
    if p.active_stream
    then record_call (detach p.stream.stream_id) (record p { active_stream = false })
    else p

unfoldable pub data_format : Native → ℕ → DataFormat
data_format octet mode = if mode == 1 then sdds_cb else sdds_sb
data_format short mode = if mode == 1 then sdds_ci else sdds_si
data_format float mode = if mode == 1 then sdds_cf else sdds_sf

unfoldable pub stream_definition : Env → Processor → StreamDefinition
unfolding data_format
stream_definition E p = record {
  stream_id = p.stream.stream_id;
  data_format = data_format p.native p.stream.sri.mode;
  sample_rate = E.floats.div (E.floats.lit 1 0) p.stream.sri.xdelta;
  time_tag_valid = p.attach_settings.time_tag_valid;
  multicast_address = p.connection.address;
  vlan = p.vlan;
  port = htons p.connection.port;
}

-- `none` is the NULL of `callAttach()`: the call goes to the output port.
unfoldable pub call_attach : Env → Option String → Processor → Processor
call_attach E target p =
    if p.active_stream
    then record_call (attach target (stream_definition E p) p.attach_settings.user_id) p
    else p

-- The SRI with the keywords of this component.
unfoldable pub annotate : Processor → Sri
annotate p =
    let prioritized =
      (if p.attach_settings.downstream_give_sri_priority
        then add_modify_keyword p.sri "BULKIO_SRI_PRIORITY" (long 1) false
        else p.sri) in
    if p.user_settings.endian_representation == 0
    then add_modify_keyword prioritized "DATA_REF_STR" (long data_ref_str_little) false
    else add_modify_keyword prioritized "DATA_REF_STR" (long data_ref_str_big) false

unfoldable pub push_sri_to : Option String → Processor → Processor
unfolding annotate
push_sri_to target p =
    if p.active_stream
    then record_call (push_sri target (annotate p) p.current_time) (record p { sri = annotate p })
    else p
