-- ===== src/Tests/Queue.antt =====
-- A queue of one file and one empty file.
use zerostash.Prelude.{
  ℕ, ◌≡◌, refl, inl, inr, ◌+◌, ◌==◌, if◌then◌else◌, List, [], ◌∷◌, length, take, length-replicate,
  arith,
}
use zerostash.Prelude.Dict
use zerostash.Objects.{invalid_input, Bytes, default, default_buffer, block_size}
use zerostash.Files.{Entry}
use zerostash.Backends.{unconditional, in_memory}
use zerostash.Backends.Memory.{in_memory-IsLawful}
use zerostash.Restore.{cur_dir, normal, done}
use zerostash.Restore.Groups.{Chunk}
use zerostash.Restore.Rounds.{Available}
use zerostash.Restore.Queue.{
  Host, Host, path_eq, PathBuf, Names, FileTree, ThreadWork, process_packet_loop,
}
use zerostash.Restore.Queue.Sending.{Split, send_all-Split}
use zerostash.Restore.Queue.Trees.{
  AllRestorable, AllThere, Apart, Distinct, process_packet_loop-AllThere,
}
use zerostash.Tests.Samples.{
  access, access-Granted, provider, provider-IsSound, lz4, lz4-IsLawful, key,
}
use zerostash.Tests.Storage.{packed, packed-block, pointer, filled, filled-Holds}
use zerostash.Tests.Indices.{fresh_entry}
use zerostash.Tests.Restore.{content, content-IsPart, memory, memory_has}

abbrev three : Entry
three = record fresh_entry { chunks = (0, pointer) ∷ [] }

abbrev nothing : Entry
nothing = record fresh_entry { size = 0; name = 97 ∷ 97 ∷ [] }

abbrev work : List ThreadWork
work = (cur_dir ∷ normal (97 ∷ []) ∷ [], three) ∷ (normal (97 ∷ 97 ∷ []) ∷ [], nothing) ∷ []

-- `./` before a name makes no other file of it.
abbrev resolve : PathBuf → PathBuf
resolve (cur_dir ∷ cs) = cs
resolve cs = cs

abbrev names : Names
names = record { resolve = resolve; access = λ name. access }

-- What each of the two holds.
abbrev content_of : Entry → Bytes
content_of md = take md.size content

abbrev plain_of : Chunk → Bytes
plain_of c = content

three-Available : Available provider lz4 in_memory content memory block_size content (0, pointer)
three-Available = record {
  hash = key;
  compressed = packed;
  object = filled.object;
  read = memory_has;
  same_id = refl;
  held = filled-Holds;
  packed = packed-block;
  positive = omega arith;
  small = omega arith;
  decryptable = omega arith;
  part = content-IsPart;
}

length-default : length default.buffer ≡ block_size
unfolding default default_buffer
length-default = length-replicate {A = ℕ} block_size 0

work-AllRestorable :
    AllRestorable provider lz4 in_memory provider-IsSound
      (unconditional in_memory)
      in_memory-IsLawful
      lz4-IsLawful
      content_of
      plain_of
      block_size
      names
      memory
      work
work-AllRestorable = (
  record { sized = refl; good = (three-Available, tt); covered = λ i h. inl (omega arith, h) },
  λ full. access-Granted 3,
  (
    record { sized = refl; good = tt; covered = λ i h. absurd (omega (arith, h)) },
    λ full. access-Granted 0,
    tt,
  ),
)

work-Distinct : Distinct resolve work
work-Distinct = ((λ e. cc, tt), (tt, tt))

process_packet_loop-AllThere_example :
    (files : FileTree) × (buffer : Bytes) × (b : in_memory.State) × (process_packet_loop provider
        lz4 in_memory names work [] memory
      ≡ done (files, buffer, b))
    × AllThere resolve content_of work files
    × ((name : PathBuf) → Apart resolve name work → Dict.lookup name files ≡ Dict.lookup name [])
process_packet_loop-AllThere_example =
    process_packet_loop-AllThere provider lz4 in_memory provider-IsSound (unconditional in_memory)
      in_memory-IsLawful lz4-IsLawful content_of plain_of block_size names work [] memory tt
      length-default work-AllRestorable work-Distinct

-- Nothing can be created in the directory `b`.
abbrev host : Host
host = record {
  State = ℕ;
  create_dir_all = λ p h. (if length p == 1 then inl invalid_input else inr tt, h + 1);
}

abbrev components : Bytes → PathBuf
components name = if length name == 1 then normal name ∷ [] else normal name ∷ normal name ∷ []

send_all-Split_example : Split host components [] (three ∷ nothing ∷ three ∷ []) 0 []
send_all-Split_example = send_all-Split host components [] (three ∷ nothing ∷ three ∷ []) 0 []
