-- ===== src/Controller/Invariant.antt =====
-- What holds of the controller between requests: the Bloom filter knows every file, and the folder
-- FileMetaData holds one file for each entry of fileMap.
use hdfs_in_golang.Base.{
  ℕ, ◌≡◌, refl, sym, ap, ◌∙◌, Bool, true, not, ◌&&◌, List, [], ◌∷◌, ◌++◌, arith, ◌==◌, nat_eq,
  list_eq,
}
use hdfs_in_golang.Base.Dict
use hdfs_in_golang.Base.Dict.{Dict, NodupKeys}
use hdfs_in_golang.Base.Exec.{ok}
use hdfs_in_golang.Text.{Text}
use hdfs_in_golang.Bloom.{BloomFilter, positions}
use hdfs_in_golang.Bloom.Laws.{
  Represents, within, within-append, put-Represents, get-Represents, within-positions,
}
use hdfs_in_golang.Controller.{Controller, FileInfo, Env, bf_bits, bf_hashes, bf_get, bf_put}
use hdfs_in_golang.Controller.Metadata.{metadata_text}

-- The contents of FileMetaData that belong to a file table.
unfoldable pub texts_of : Dict Text FileInfo → Dict Text Text
texts_of [] = []
texts_of ((name, info) ∷ d) = (name, metadata_text name info) ∷ texts_of d

pub record IsMirrored (c : Controller) : Type 0 where
  pub mirror : c.file_metadata_dir ≡ texts_of c.file_map
  pub nodup : NodupKeys c.file_map

pub texts_of-insert :
    (name : Text) (info : FileInfo) (d : Dict Text FileInfo)
    → texts_of (Dict.insert name info d) ≡ Dict.insert name (metadata_text name info) (texts_of d)
unfolding texts_of Dict.insert
texts_of-insert name info [] = refl
texts_of-insert name info ((j, other) ∷ d) = ground (arith, texts_of-insert name info d)

pub texts_of-erase :
    (name : Text) (d : Dict Text FileInfo)
    → texts_of (Dict.erase name d) ≡ Dict.erase name (texts_of d)
unfolding texts_of Dict.erase
texts_of-erase name [] = refl
texts_of-erase name ((j, other) ∷ d) = ground (arith, texts_of-erase name d)

pub has-texts_of :
    (name : Text) (d : Dict Text FileInfo) → Dict.has name (texts_of d) ≡ Dict.has name d
unfolding texts_of Dict.has
has-texts_of name [] = refl
has-texts_of name ((j, other) ∷ d) = ground (arith, has-texts_of name d)

module _ (env : Env) where
  -- The positions of a name in the controller's filter.
  abbrev pub spots : Text → List ℕ
  spots = positions env.murmur bf_hashes bf_bits

  -- The filter stands for a set of positions that has those of every file.
  pub record IsIndexed (c : Controller) : Type 0 where
    pub inserted : List ℕ
    pub filter : Represents bf_hashes bf_bits inserted c.bf
    pub known :
        (name : Text) → Dict.has name c.file_map ≡ true → within (spots name) inserted ≡ true

  -- `bf.Get` never panics, and says yes to every file.
  pub bf_get-IsIndexed :
      (c : Controller) (name : Text)
      → IsIndexed c
      → (found : Bool) × (bf_get env name c ≡ (ok found, c))
        × (Dict.has name c.file_map ≡ true → found ≡ true)
  unfolding bf_get
  bf_get-IsIndexed c name v = (
    not (bf_hashes == 0) && within (spots name) v.inserted,
    rw (
      get-Represents env.murmur bf_hashes bf_bits (omega arith) (omega arith) c.bf name v.inserted
          v.filter,
      bf_get,
    ),
    λ h. rw (v.known name h) (ground arith),
  )

  -- `bf.Put` never panics.
  pub bf_put-IsIndexed :
      (c : Controller) (name : Text) (inserted : List ℕ)
      → Represents bf_hashes bf_bits inserted c.bf
      → (bf : BloomFilter) × (bf_put env name c ≡ (ok tt, record c { bf = bf }))
        × Represents bf_hashes bf_bits (spots name ++ inserted) bf
  unfolding bf_put
  bf_put-IsIndexed c name inserted r =
      let (bf, e, r') =
        put-Represents env.murmur bf_hashes bf_bits (omega arith) (omega arith) c.bf name inserted
          r in
      (bf, rw (e, bf_put), r')

  -- Adding a name to the filter and an entry for it to the table keeps the index.
  pub insert-IsIndexed :
      (c : Controller) (name : Text) (info : FileInfo) (bf : BloomFilter) (v : IsIndexed c)
      → Represents bf_hashes bf_bits (spots name ++ v.inserted) bf
      → IsIndexed (record c { file_map = Dict.insert name info c.file_map; bf = bf })
  insert-IsIndexed c name info bf v r = record {
    inserted = spots name ++ v.inserted;
    filter = r;
    known = λ j h. ground (
      arith,
      Dict.has-insert j name info c.file_map,
      v.known j,
      within-positions env.murmur bf_hashes bf_bits (omega arith) (omega arith) name v.inserted,
      within-append (spots j) (spots name) v.inserted,
    );
  }

  -- Taking an entry out of the table keeps the index.
  pub erase-IsIndexed :
      (c : Controller) (name : Text)
      → IsIndexed c
      → IsIndexed (record c { file_map = Dict.erase name c.file_map })
  erase-IsIndexed c name v = record {
    inserted = v.inserted;
    filter = v.filter;
    known = λ j h. v.known j (ground (arith, Dict.has-erase j name c.file_map));
  }

  pub record IsConsistent (c : Controller) : Type 0 where
    pub indexed : IsIndexed c
    pub mirrored : IsMirrored c

-- An entry and its file are added, or taken out.
pub insert-IsMirrored :
    (c : Controller) (name : Text) (info : FileInfo)
    → IsMirrored c
    → IsMirrored (record c {
      file_map = Dict.insert name info c.file_map;
      file_metadata_dir = Dict.insert name (metadata_text name info) c.file_metadata_dir;
    })
insert-IsMirrored c name info m = record {
  mirror =
      ap (Dict.insert name (metadata_text name info)) m.mirror
      ∙ sym (texts_of-insert name info c.file_map);
  nodup = Dict.insert-NodupKeys name info c.file_map m.nodup;
}

pub erase-IsMirrored :
    (c : Controller) (name : Text)
    → IsMirrored c
    → IsMirrored (record c {
      file_map = Dict.erase name c.file_map;
      file_metadata_dir = Dict.erase name c.file_metadata_dir;
    })
erase-IsMirrored c name m = record {
  mirror = ap (Dict.erase name) m.mirror ∙ sym (texts_of-erase name c.file_map);
  nodup = Dict.erase-NodupKeys name c.file_map m.nodup;
}
