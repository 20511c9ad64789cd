-- ===== src/Tests/Meta.antt =====
-- Metadata objects at concrete inputs: a buffer of 600 bytes, of which 584 are the capacity.
use zerostash.Prelude.{
  List, ℕ, ◌≡◌, refl, some, none, [], ◌∷◌, length, replicate, Outcome, ok, err, panic, arith,
}
use zerostash.Prelude.Dict
use zerostash.Objects.{
  Bytes, IoError, Object, finalize_range, finalize_with, write_head, clear, seek, set_id, write_tag,
  copy_range,
}
use zerostash.Crypto.{encrypt_object}
use zerostash.Backends.{in_memory, memory_write}
use zerostash.Meta.{files, files_at}
use zerostash.Meta.Encoding.{Encoder, parked, finish, writer, start_encoding, write_state}
use zerostash.Meta.Writer.{
  Cbor, Writer, seal_and_store, finish_field, write_field, write_records, write_next, track,
  pad_object, head_object, draw_id, store_object, write_object, restart, header_of,
}
use zerostash.Meta.Writer.Sealed.{Sealed, seal_and_store-Sealed}
use zerostash.Meta.Writer.Chain.{records_of_field, write_field_breaks_chain}
use zerostash.Tests.Samples.{provider, sample_id}

-- An encoder that keeps the object and appends nothing.
abbrev pub encoder : Encoder
encoder = record {
  State = Object;
  stream = λ o. ok o;
  write_all = λ bs o. ok o;
  finish = λ o. (o, none);
  writer = λ o. o;
}

abbrev cbor : Cbor
cbor = record { encode_header = λ h. some (length h.offsets ∷ []) }

abbrev object : Object
object = record { id = sample_id; buffer = replicate 600 0; capacity = 584; cursor = 530 }

abbrev writing : Writer provider in_memory encoder
writing = record {
  objects = [];
  offsets = files_at 512 ∷ [];
  encoder = parked object;
  current_field = some files;
  source = 1;
  backend = [];
}

abbrev fresh_writer : Writer provider in_memory encoder
fresh_writer = record writing { current_field = none; offsets = [] }

abbrev sealed : Writer provider in_memory encoder
sealed = (seal_and_store provider in_memory encoder cbor writing).1

seal_run : seal_and_store provider in_memory encoder cbor writing ≡ (ok tt, sealed)
unfolding seal_and_store finish pad_object head_object draw_id store_object write_object restart
    header_of finalize_range finalize_with write_head copy_range encrypt_object write_tag
    memory_write clear seek set_id replicate
seal_run = refl

seal_and_store-Sealed_example : Sealed provider in_memory encoder cbor writing sealed
seal_and_store-Sealed_example =
    seal_and_store-Sealed provider in_memory encoder cbor writing sealed seal_run

abbrev one_record : List Bytes
one_record = (5 ∷ []) ∷ []

-- The last record of a field ends in the same place.
abbrev after_records : Writer provider in_memory encoder
after_records = (records_of_field provider in_memory encoder cbor files one_record fresh_writer).1

records_run :
    records_of_field provider in_memory encoder cbor files one_record fresh_writer
    ≡ (ok tt, after_records)
unfolding records_of_field writer start_encoding track Dict.upsert write_records write_next
    write_state seal_and_store finish pad_object head_object draw_id store_object write_object
    restart header_of finalize_range finalize_with write_head copy_range encrypt_object write_tag
    memory_write clear seek set_id replicate
records_run = refl

abbrev object_in : Outcome IoError Object → Object
object_in (ok o) = o
object_in (err e) = object
object_in panic = object

abbrev last_written : Object
last_written = object_in (writer encoder after_records.encoder)

last_object : writer encoder after_records.encoder ≡ ok last_written
unfolding records_of_field writer start_encoding track Dict.upsert write_records write_next
    write_state seal_and_store finish pad_object head_object draw_id store_object write_object
    restart header_of finalize_range finalize_with write_head copy_range encrypt_object write_tag
    memory_write clear seek set_id replicate
last_object = refl

last_place : (last_written.capacity ≡ 584) × (last_written.cursor ≡ 512)
unfolding records_of_field writer start_encoding track Dict.upsert write_records write_next
    write_state seal_and_store finish pad_object head_object draw_id store_object write_object
    restart header_of finalize_range finalize_with write_head copy_range encrypt_object write_tag
    memory_write clear seek set_id replicate
last_place = (refl, refl)

abbrev finished : Writer provider in_memory encoder
finished = (write_field provider in_memory encoder cbor files one_record fresh_writer).1

finish_run :
    write_field provider in_memory encoder cbor files one_record fresh_writer ≡ (ok tt, finished)
unfolding write_field writer start_encoding finish_field write_records write_next write_state
    seal_and_store finish pad_object head_object draw_id store_object write_object restart header_of
    finalize_range finalize_with write_head copy_range encrypt_object write_tag memory_write clear
    seek set_id replicate
finish_run = refl

write_field_breaks_chain_example :
    (last with_header written fresh : Object) × (size : ℕ) × (bytes : Bytes) × ((finish encoder
        after_records.encoder).0
      ≡ ok last)
    × (cbor.encode_header
          (record { next_object = none; offsets = after_records.offsets; end = last.cursor })
        ≡ some bytes)
    × (write_head bytes (finalize_with (provider.fill size after_records.source).0 last)
        ≡ some with_header)
    × (provider.encrypt_object with_header ≡ some written)
    × (in_memory.write_object written after_records.backend ≡ (ok tt, finished.backend))
    × (finished.encoder ≡ parked fresh)
    × (finished.offsets ≡ [])
write_field_breaks_chain_example =
    write_field_breaks_chain provider in_memory encoder cbor files one_record fresh_writer
      after_records finished last_written records_run last_object (omega (arith, last_place))
      finish_run
