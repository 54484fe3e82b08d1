-- ===== src/Memory/Assets.antt =====
-- `normalizeMediaParts` and `upsertSessionAsset` of genkit-cowork/memory/sessions.go: a save moves the
-- data URIs of media parts into the asset store, and lists every file that a part names. The parts
-- that a message points to are values here.
use genkit_cowork.Base.{
  ℕ, ◌+◌, Bool, not, ◌&&◌, Option, none, some, List, [], ◌∷◌, length, ◌==◌, if◌then◌else◌, reverse,
}
use genkit_cowork.Base.Int.{ℤ}
use genkit_cowork.Base.Bytes.{Bytes, codes, eqb, has_prefix}
use genkit_cowork.Base.Result.{Result, ok, err, ◌>>=◌}
use genkit_cowork.Memory.Types.{
  Role, tool, Part, MessageKind, episodic, instrumental, SessionAsset, AssetIngestStatus,
}
use genkit_cowork.Memory.Ledger.{Table}
use genkit_cowork.Memory.DataUri.{parse_data_uri}
use genkit_cowork.Memory.Store.{StoreError}

pub data SaveError : Type 0 where
  nil_session_data : SaveError
  load_existing : StoreError → SaveError
  truncated : Table → ℕ → ℕ → SaveError
  store_media_asset : Bytes → SaveError
  turn_mismatch : ℕ → ℤ → ℕ → SaveError
  unreferenced : ℕ → SaveError
  out_of_range : SaveError
  save : StoreError → SaveError

unfoldable pub kind_for_message : Role → MessageKind
kind_for_message tool = instrumental
kind_for_message _ = episodic

-- What a call takes from outside: `uuid.New().String()` and `time.Now()`, read in order.
pub record Supply : Type 0 where
  pub uuid : ℕ → Bytes
  pub now : ℕ → ℕ

-- how many of each have been read
pub record Taken : Type 0 where
  pub ids : ℕ
  pub times : ℕ

-- `MediaAssetStore.Put`: the absolute path, or an error.
abbrev pub AssetStore : Type 0
AssetStore = Bytes → Bytes → Bytes → Bytes → Bytes → Result Bytes Bytes

abbrev slash : ℕ
slash = b'/'

-- `filepath.IsAbs` and `filepath.Base` on Unix
abbrev is_abs : Bytes → Bool
is_abs p = has_prefix p (slash ∷ [])

drop_slashes : Bytes → Bytes
drop_slashes [] = []
drop_slashes (c ∷ cs) = let rest = drop_slashes cs in if c == slash then rest else c ∷ cs

until_slash : Bytes → Bytes
until_slash [] = []
until_slash (c ∷ cs) = let rest = until_slash cs in if c == slash then [] else c ∷ rest

unfoldable pub path_base : Bytes → Bytes
unfolding drop_slashes until_slash
path_base [] = codes "."
path_base p =
    let b = reverse (until_slash (drop_slashes (reverse p))) in if eqb b [] then slash ∷ [] else b

unfoldable pub upsert_session_asset : List SessionAsset → SessionAsset → List SessionAsset
upsert_session_asset [] asset = asset ∷ []
upsert_session_asset (a ∷ rest) asset =
    let more = upsert_session_asset rest asset in
    if eqb a.message_id asset.message_id && a.part_index == asset.part_index
    then asset ∷ rest
    else a ∷ more

abbrev new_asset : Bytes → Bytes → ℕ → Bytes → ℕ → Bytes → SessionAsset
new_asset id message_id i mime size path = record {
  asset_id = id;
  message_id = message_id;
  name = [];
  part_index = i;
  mime_type = mime;
  size_bytes = size;
  sha256 = [];
  path = path;
  uploaded_at = 0;
  ingest_status = AssetIngestStatus.unset;
  ingested_at = 0;
  metadata = [];
}

-- what a round of `normalizeMediaParts` leaves: the part, the assets and the supply
abbrev pub Normalized : Type 0
Normalized = Part × List SessionAsset × Taken

module _ (sup : Supply) (put : AssetStore) (tenant session message_id : Bytes) where
  -- a data URI that was parsed
  store_payload : ℕ → Part → List SessionAsset → Taken → Bytes × Bytes → Result SaveError Normalized
  store_payload i part assets taken (mime, payload) =
      let id = sup.uuid taken.ids in
      let taken' = record taken { ids = taken.ids + 1 } in
      elim (put tenant session id mime payload) [
        | err e ↦ err (store_media_asset e)
        | ok path ↦ ok (
          record part { text = path; content_type = mime },
          upsert_session_asset assets (new_asset id message_id i mime (length payload) path),
          taken',
        )
      ]

  by_uri :
      ℕ → Part → List SessionAsset → Taken → Option (Bytes × Bytes) → Result SaveError Normalized
  unfolding store_payload
  by_uri i part assets taken none = ok (part, assets, taken)
  by_uri i part assets taken (some parsed) = store_payload i part assets taken parsed

  normalize_part : ℕ → Part → List SessionAsset → Taken → Result SaveError Normalized
  unfolding by_uri
  normalize_part i part assets taken =
      if not part.is_media
      then ok (part, assets, taken)
      else if is_abs part.text
      then ok (
        part,
        upsert_session_asset assets
            (new_asset (path_base part.text) message_id i part.content_type 0 part.text),
        taken,
      )
      else by_uri i part assets taken (parse_data_uri part.text)

  unfoldable pub normalize_parts :
      ℕ
      → List Part
      → List SessionAsset
      → Taken
      → Result SaveError (List Part × List SessionAsset × Taken)
  unfolding normalize_part
  normalize_parts i [] assets taken = ok ([], assets, taken)
  normalize_parts i (p ∷ ps) assets taken = do
    (p', assets', taken') ← normalize_part i p assets taken
    (ps', assets'', taken'') ← normalize_parts (i + 1) ps assets' taken'
    ok (p' ∷ ps', assets'', taken'')
