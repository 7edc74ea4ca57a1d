-- ===== src/Processor/Calls/Annotation.antt =====
-- The keywords of the SRI that `pushSri` sends downstream.
use text.Mathlib.Text.{◌==◌ as str_eq}
use sink_sdds.Base.{String, ◌≡◌, false, some, arith, if◌then◌else◌, ◌==◌}
use sink_sdds.Processor.Types.{long, Sri, Processor}
use sink_sdds.Processor.Keywords.{add_modify_keyword, lookup, add_modify_keyword_lem}
use sink_sdds.Processor.Calls.{data_ref_str_little, data_ref_str_big, annotate}

-- Under DATA_REF_STR a receiver finds the byte order that the user chose; under BULKIO_SRI_PRIORITY it
-- finds 1 if the user gives the SRI priority; and otherwise it finds what the stream's SRI says.
pub annotate_lem :
    (p : Processor) (id : String)
    → lookup id (annotate p).keywords ≡ (
        if str_eq "DATA_REF_STR" id
        then some (
            long (
              if p.user_settings.endian_representation == 0
              then data_ref_str_little
              else data_ref_str_big))
        else (if p.attach_settings.downstream_give_sri_priority
            then (if str_eq "BULKIO_SRI_PRIORITY" id
                then some (long 1)
                else lookup id p.sri.keywords)
            else lookup id p.sri.keywords))
unfolding annotate
annotate_lem p id =
    let sri : Sri =
      (if p.attach_settings.downstream_give_sri_priority
        then add_modify_keyword p.sri "BULKIO_SRI_PRIORITY" (long 1) false
        else p.sri) in
    ground (
      arith,
      (add_modify_keyword_lem p.sri "BULKIO_SRI_PRIORITY" (long 1) id).0,
      (add_modify_keyword_lem sri "DATA_REF_STR" (long data_ref_str_little) id).0,
      (add_modify_keyword_lem sri "DATA_REF_STR" (long data_ref_str_big) id).0,
    )
