-- ===== src/Tests/Enrollments.antt =====
-- Enrollments in memory, in files and on disk.
use chowdy.Base.{
  ok, ℕ, zero, suc, ◌≡◌, ◌≢◌, refl, ◌⊎◌, inl, true, false, List, [], ◌∷◌, take, replicate, arith,
  none, some, codes, All, str_eq,
}
use chowdy.Files.{FilePath, File, FileSystem, read_file, path_eq, path_eq_iff}
use chowdy.Encoding.Embedding.{Embedding, emb_dim, cosine_sim_normed, pick_threshold}
use chowdy.Encoding.Embedding.Threshold.{EachPair, pick_threshold_bounds}
use chowdy.Encoding.File.{EnrollmentFile, header_chunks, parse_enrollment, created_or_now}
use chowdy.Encoding.File.Laws.{
  IsTyped, IsFloat, enrollment_bytes, parse-enrollment_bytes, parse-enrollment_bytes_refused,
}
use chowdy.Encoding.File.Truncation.{
  IsLoaded, parse_enrollment-IsLoaded, truncated_save_refused, length-enrollment_bytes,
}
use chowdy.Encoding.Disk.{DiskIo, write_enrollment, save_enrollment, tmp_path}
use chowdy.Encoding.Disk.Loss.{save_enrollment_readable, save_enrollment_lossy}
use chowdy.Encoding.Disk.Atomic.{Saved, save_enrollment_atomic, save_enrollment_others}
use chowdy.Tests.Samples.{toy, toy-IsOrdered}

abbrev face : Embedding
face = replicate 512 1

abbrev enrollment : EnrollmentFile
enrollment = record { embedder_id = 7; created = 0; threshold = 3; embeddings = face ∷ face ∷ [] }

replicate_floats : (n : ℕ) → All IsFloat (replicate n 1)
replicate_floats zero = tt
replicate_floats (suc n) = (omega arith, replicate_floats n)

face_floats : All IsFloat face
face_floats = replicate_floats 512

enrollment-IsTyped : IsTyped enrollment
enrollment-IsTyped = record {
  id_fits = omega arith;
  created_fits = omega arith;
  threshold_fits = omega arith;
  vectors = ((unfold emb_dim in refl, face_floats), ((unfold emb_dim in refl, face_floats), tt));
}

parse-enrollment_bytes_example :
    parse_enrollment (enrollment_bytes 99 enrollment)
    ≡ some (record enrollment { created = created_or_now 99 enrollment })
parse-enrollment_bytes_example =
    parse-enrollment_bytes 99 enrollment (omega arith) enrollment-IsTyped (omega arith)
      (omega arith)

truncated_save_refused_example : parse_enrollment (take 10 (enrollment_bytes 99 enrollment)) ≡ none
truncated_save_refused_example =
    truncated_save_refused 99 enrollment 10 (omega arith) enrollment-IsTyped (omega arith)
      (omega arith)
      (unfold emb_dim in omega (arith, length-enrollment_bytes 99 enrollment enrollment-IsTyped))

parse_enrollment-IsLoaded_example :
    IsLoaded
      (record enrollment { created = created_or_now 99 enrollment })
      (enrollment_bytes 99 enrollment)
parse_enrollment-IsLoaded_example =
    parse_enrollment-IsLoaded (enrollment_bytes 99 enrollment)
      (record enrollment { created = created_or_now 99 enrollment }) parse-enrollment_bytes_example

abbrev empty_enrollment : EnrollmentFile
empty_enrollment = record { embedder_id = 7; created = 5; threshold = 3; embeddings = [] }

empty_enrollment-IsTyped : IsTyped empty_enrollment
empty_enrollment-IsTyped = record {
  id_fits = omega arith;
  created_fits = omega arith;
  threshold_fits = omega arith;
  vectors = tt;
}

parse-enrollment_bytes_refused_example :
    parse_enrollment (enrollment_bytes 99 empty_enrollment) ≡ none
parse-enrollment_bytes_refused_example =
    parse-enrollment_bytes_refused 99 empty_enrollment (omega arith) empty_enrollment-IsTyped
      (omega arith) (inl refl)

pick_threshold_bounds_example :
    let t = pick_threshold toy (face ∷ face ∷ []) 3 1 in
    (toy.lt32 t 3 ≡ false)
    × ((t ≡ 3)
        ⊎ ((r : ℕ) × (t ≡ toy.sub32 (toy.to_f32 r) 1)
            × (toy.lt32 3 t ≡ true)
            × EachPair
                (λ v w. toy.lt64 (cosine_sim_normed toy v w emb_dim) r ≡ false)
                (face ∷ face ∷ [])))
pick_threshold_bounds_example = pick_threshold_bounds toy toy-IsOrdered (face ∷ face ∷ []) 3 1

abbrev model : ℕ → List ℕ
model b = b ∷ replicate 20 0

-- A disk on which the third write fails.
abbrev failing : DiskIo
failing = record {
  opens = true;
  writes = λ i. toy.lt32 i 2;
  flushed = 9000;
  renames = true;
  rename_message = [];
}

abbrev desk : FilePath
desk = record { dir = codes "/var/lib/chowdy/users/1000"; name = codes "desk.enc" }

abbrev lamp : FilePath
lamp = record desk { name = codes "lamp.enc" }

abbrev disk : FileSystem
disk = record { dirs = []; files = []; now = 99 }

save_enrollment_atomic_example :
    Saved failing 99 disk desk enrollment (save_enrollment failing disk desk enrollment)
save_enrollment_atomic_example = save_enrollment_atomic failing disk desk enrollment

differ : (p q : FilePath) → path_eq p q ≡ false → p ≢ q
differ p q h e = cc ((path_eq_iff p q).1 e, h)

save_enrollment_others_example :
    read_file lamp (save_enrollment failing disk desk enrollment).0 ≡ read_file lamp disk
save_enrollment_others_example =
    save_enrollment_others failing disk desk lamp enrollment
      (differ lamp desk (unfold path_eq str_eq in refl))
      (differ lamp (tmp_path desk) (unfold path_eq str_eq in refl))

-- A disk on which all goes well, and one that loses all but the first 10 bytes when the file closes.
abbrev good : DiskIo
good = record {
  opens = true;
  writes = λ i. true;
  flushed = 9000;
  renames = true;
  rename_message = [];
}

abbrev lossy : DiskIo
lossy = record good { flushed = 10 }

good-saves : (save_enrollment good disk desk enrollment).1 ≡ ok tt
unfolding save_enrollment write_enrollment header_chunks emb_dim
good-saves = refl

lossy-saves : (save_enrollment lossy disk desk enrollment).1 ≡ ok tt
unfolding save_enrollment write_enrollment header_chunks emb_dim
lossy-saves = refl

save_enrollment_readable_example :
    (f : File) × (read_file desk (save_enrollment good disk desk enrollment).0 ≡ some f)
    × (parse_enrollment f.content
        ≡ some (record enrollment { created = created_or_now 99 enrollment }))
save_enrollment_readable_example =
    save_enrollment_readable good disk desk enrollment (omega arith) enrollment-IsTyped
      (omega arith) (omega arith)
      (unfold emb_dim in omega (arith, length-enrollment_bytes 99 enrollment enrollment-IsTyped))
      good-saves

save_enrollment_lossy_example :
    (f : File) × (read_file desk (save_enrollment lossy disk desk enrollment).0 ≡ some f)
    × (parse_enrollment f.content ≡ none)
save_enrollment_lossy_example =
    save_enrollment_lossy lossy disk desk enrollment (omega arith) enrollment-IsTyped (omega arith)
      (omega arith)
      (unfold emb_dim in omega (arith, length-enrollment_bytes 99 enrollment enrollment-IsTyped))
      lossy-saves
