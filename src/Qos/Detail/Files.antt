-- ===== src/Qos/Detail/Files.antt =====
-- Which file the detail of a profile is from.
use connext_triad.Prelude.{
  List, ◌∷◌, [], ◌++◌, false, Option, none, some, Map, lookup, All, ◌≡◌, refl, arith, ◌⊎◌, inl, inr,
  ◌==◌, lookup-insert, ==_refl, ap, ◌∙◌,
}
use connext_triad.Xml.Text.{Bytes, bytes_eq}
use connext_triad.Xml.Scan.{parse_profiles_from_file}
use connext_triad.Qos.Store.{Platform, ProviderEntry, QosStore, key}
use connext_triad.Qos.Detail.{
  Detail, is_dynamic, external_detail, put_external, file_details, external_details,
  dynamic_details, detail_map,
}

module _ (platform : Platform)
    (print : Bytes → platform.Qos → platform.Qos → platform.Qos → Bytes) where
  open platform use {Provider, Disk}

  external_detail-is_dynamic :
      (disk : Disk) (pe : ProviderEntry platform) (lib profile : Bytes)
      → is_dynamic (external_detail platform print disk pe lib profile) ≡ false
  unfolding external_detail
  external_detail-is_dynamic disk pe lib profile = ground arith

  put_external-is_dynamic :
      (k full : Bytes) (o : Option Detail) (m : Map Bytes Detail)
      → is_dynamic o ≡ false
      → is_dynamic (lookup full m) ≡ false
      → is_dynamic (lookup full (put_external platform print k o m)) ≡ false
  unfolding put_external
  put_external-is_dynamic k full none m e h = h
  put_external-is_dynamic k full (some d) m e h = ground (arith, lookup-insert k full d m, e, h)

  file_details-is_dynamic :
      (disk : Disk) (pe : ProviderEntry platform) (full : Bytes) (pairs : List (Bytes × Bytes))
      (m : Map Bytes Detail)
      → is_dynamic (lookup full m) ≡ false
      → is_dynamic (lookup full (file_details platform print disk pe pairs m)) ≡ false
  unfolding file_details
  file_details-is_dynamic disk pe full [] m h = h
  file_details-is_dynamic disk pe full ((lib, profile) ∷ pairs) m h =
      file_details-is_dynamic disk pe full pairs
        (put_external platform print (key lib profile)
          (external_detail platform print disk pe lib profile) m)
        (put_external-is_dynamic (key lib profile) full
          (external_detail platform print disk pe lib profile) m
          (external_detail-is_dynamic disk pe lib profile) h)

  external_details-is_dynamic :
      (disk : Disk) (full : Bytes) (files : List (ProviderEntry platform)) (m : Map Bytes Detail)
      → is_dynamic (lookup full m) ≡ false
      → is_dynamic (lookup full (external_details platform print disk files m)) ≡ false
  unfolding external_details
  external_details-is_dynamic disk full [] m h = h
  external_details-is_dynamic disk full (pe ∷ rest) m h =
      file_details-is_dynamic disk pe full (parse_profiles_from_file (platform.read pe.path disk))
        (external_details platform print disk rest m)
        (external_details-is_dynamic disk full rest m h)

  -- No profile of the list has this full name, or the provider of the file does not have it.
  abbrev pub Silent : Disk → ProviderEntry platform → Bytes → List (Bytes × Bytes) → Type 0
  Silent disk pe full = All (λ pair.
      ((key pair.0 pair.1 == full) ≡ false)
      ⊎ (external_detail platform print disk pe pair.0 pair.1 ≡ none))

  -- The file gives no detail of that name.
  abbrev pub SilentFile : Disk → Bytes → ProviderEntry platform → Type 0
  SilentFile disk full pe =
      Silent disk pe full (parse_profiles_from_file (platform.read pe.path disk))

  put_external-other :
      (k full : Bytes) (o : Option Detail) (m : Map Bytes Detail)
      → (k == full) ≡ false
      → lookup full (put_external platform print k o m) ≡ lookup full m
  unfolding put_external
  put_external-other k full none m e = refl
  put_external-other k full (some d) m e = ground (arith, lookup-insert k full d m, e)

  put_external-silent :
      (k full : Bytes) (o : Option Detail) (m : Map Bytes Detail)
      → ((k == full) ≡ false) ⊎ (o ≡ none)
      → lookup full (put_external platform print k o m) ≡ lookup full m
  unfolding put_external
  put_external-silent k full o m (inl e) = put_external-other k full o m e
  put_external-silent k full o m (inr e) =
      ap (λ x. lookup full (put_external platform print k x m)) e

  file_details-Silent :
      (disk : Disk) (pe : ProviderEntry platform) (full : Bytes) (pairs : List (Bytes × Bytes))
      (m : Map Bytes Detail)
      → Silent disk pe full pairs
      → lookup full (file_details platform print disk pe pairs m) ≡ lookup full m
  unfolding file_details
  file_details-Silent disk pe full [] m w = refl
  file_details-Silent disk pe full ((lib, profile) ∷ pairs) m w =
      file_details-Silent disk pe full pairs
        (put_external platform print (key lib profile)
          (external_detail platform print disk pe lib profile) m)
        w.1
      ∙ put_external-silent (key lib profile) full
          (external_detail platform print disk pe lib profile) m w.0

  put_external_self :
      (full : Bytes) (d : Detail) (m : Map Bytes Detail)
      → is_dynamic (lookup full m) ≡ false
      → lookup full (put_external platform print full (some d) m) ≡ some d
  unfolding put_external
  put_external_self full d m h = ground (arith, h, lookup-insert full full d m, ==_refl full)

  file_details-last :
      (disk : Disk) (pe : ProviderEntry platform) (lib profile : Bytes)
      (before after : List (Bytes × Bytes)) (m : Map Bytes Detail) (d : Detail)
      → external_detail platform print disk pe lib profile ≡ some d
      → Silent disk pe (key lib profile) after
      → is_dynamic (lookup (key lib profile) m) ≡ false
      → lookup
          (key lib profile)
          (file_details platform print disk pe (before ++ (lib, profile) ∷ after) m)
        ≡ some d
  unfolding file_details
  file_details-last disk pe lib profile [] after m d e w h =
      file_details-Silent disk pe (key lib profile) after
        (put_external platform print (key lib profile)
          (external_detail platform print disk pe lib profile) m)
        w
      ∙ ap (λ o. lookup (key lib profile) (put_external platform print (key lib profile) o m)) e
      ∙ put_external_self (key lib profile) d m h
  file_details-last disk pe lib profile ((lib', profile') ∷ before) after m d e w h =
      file_details-last disk pe lib profile before after
        (put_external platform print (key lib' profile')
          (external_detail platform print disk pe lib' profile') m)
        d e w
        (put_external-is_dynamic (key lib' profile') (key lib profile)
          (external_detail platform print disk pe lib' profile') m
          (external_detail-is_dynamic disk pe lib' profile') h)

  detail_map-files :
      (default_provider : Option Provider) (disk : Disk) (s : QosStore platform)
      → detail_map platform print default_provider disk false s
        ≡ external_details platform print disk s.providers
            (dynamic_details platform print s s.dynamic_providers [])
  unfolding detail_map
  detail_map-files none disk s = refl
  detail_map-files (some provider) disk s = refl

  external_details-first :
      (disk : Disk) (pe : ProviderEntry platform) (rest : List (ProviderEntry platform))
      (lib profile : Bytes) (before after : List (Bytes × Bytes)) (m : Map Bytes Detail)
      (d : Detail)
      → parse_profiles_from_file (platform.read pe.path disk) ≡ before ++ (lib, profile) ∷ after
      → Silent disk pe (key lib profile) after
      → external_detail platform print disk pe lib profile ≡ some d
      → is_dynamic (lookup (key lib profile) m) ≡ false
      → lookup (key lib profile) (external_details platform print disk (pe ∷ rest) m) ≡ some d
  unfolding external_details
  external_details-first disk pe rest lib profile before after m d hp w e h =
      let later = external_details platform print disk rest m in
      ap (λ pairs. lookup (key lib profile) (file_details platform print disk pe pairs later)) hp
      ∙ file_details-last disk pe lib profile before after later d e w
          (external_details-is_dynamic disk (key lib profile) rest m h)

  external_details-SilentFile :
      (disk : Disk) (full : Bytes) (earlier files : List (ProviderEntry platform))
      (m : Map Bytes Detail)
      → All (SilentFile disk full) earlier
      → lookup full (external_details platform print disk (earlier ++ files) m)
        ≡ lookup full (external_details platform print disk files m)
  unfolding external_details
  external_details-SilentFile disk full [] files m h = refl
  external_details-SilentFile disk full (pe ∷ earlier) files m (h, hs) =
      file_details-Silent disk pe full (parse_profiles_from_file (platform.read pe.path disk))
        (external_details platform print disk (earlier ++ files) m) h
      ∙ external_details-SilentFile disk full earlier files m hs

  -- Without the built-in profiles, and where no dynamic profile has the name, the detail of a profile
  -- is the one that the first file gives that gives one, whatever the files loaded later say: the
  -- files before it do not list the profile, or their providers do not have it, and no later entry
  -- of the same file gives a detail of that name.
  pub detail_map-first_file :
      (default_provider : Option Provider) (disk : Disk) (s : QosStore platform)
      (earlier : List (ProviderEntry platform)) (pe : ProviderEntry platform)
      (rest : List (ProviderEntry platform)) (lib profile : Bytes)
      (before after : List (Bytes × Bytes)) (d : Detail)
      → s.providers ≡ earlier ++ pe ∷ rest
      → All (SilentFile disk (key lib profile)) earlier
      → parse_profiles_from_file (platform.read pe.path disk) ≡ before ++ (lib, profile) ∷ after
      → Silent disk pe (key lib profile) after
      → external_detail platform print disk pe lib profile ≡ some d
      → lookup (key lib profile) (dynamic_details platform print s s.dynamic_providers []) ≡ none
      → lookup (key lib profile) (detail_map platform print default_provider disk false s) ≡ some d
  detail_map-first_file default_provider disk s earlier pe rest lib profile before after d hs he hp
        w e h =
      let m = dynamic_details platform print s s.dynamic_providers [] in
      ap (lookup (key lib profile)) (detail_map-files default_provider disk s)
      ∙ ap (λ files. lookup (key lib profile) (external_details platform print disk files m)) hs
      ∙ external_details-SilentFile disk (key lib profile) earlier (pe ∷ rest) m he
      ∙ external_details-first disk pe rest lib profile before after m d hp w e (ap is_dynamic h)
