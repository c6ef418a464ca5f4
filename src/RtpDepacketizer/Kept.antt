-- ===== src/RtpDepacketizer/Kept.antt =====
-- A payload changes the frame at hand and nothing else.
use wireless_vr_bridge.Base.{ℕ, ◌≡◌, refl, ◌∙◌, Bool, List, Option, not, if_both, ◌==◌, get_or}
use wireless_vr_bridge.RtpDepacketizer.{RtpDepacketizer}
use wireless_vr_bridge.RtpDepacketizer.Process.{
  add_payload, continue_fu, check_sequence, copy_fragment, is_next_seq, has_bit, in_fragmented_unit,
  fu_header_start_bit, fu_header_end_bit, nalu_type,
}

module _ {X : Type 0} (f : RtpDepacketizer → X)
    (closed : (d : RtpDepacketizer) (frame : List ℕ) (fu_header : Option ℕ) (should_drop : Bool)
      → f (record d {
        m_frame_data = frame;
        m_fu_header = fu_header;
        m_should_drop_fragmented_unit = should_drop;
      })
        ≡ f d)
    (payload : List ℕ) (seq : ℕ) (d : RtpDepacketizer) where
  abbrev Keeps : RtpDepacketizer → Type 0
  Keeps e = f e ≡ f d

  continue_fu-Keeps : Keeps (continue_fu payload seq d)
  continue_fu-Keeps =
      let checked =
        if_both Keeps (is_next_seq d.m_last_processed_seq_id seq) d _ (λ next. refl)
          (λ gap. closed d _ _ _) in
      let c = check_sequence seq d in
      let copied =
        if_both Keeps c.m_should_drop_fragmented_unit c _ (λ dropped. checked)
          (λ kept. closed c _ _ _ ∙ checked) in
      if_both Keeps (has_bit (get_or payload 1 0) fu_header_end_bit) _ _
        (λ ends. closed (copy_fragment payload c) _ _ _ ∙ copied) (λ more. copied)

  pub add_payload-keeps : f (add_payload payload seq d) ≡ f d
  add_payload-keeps =
      if_both Keeps (nalu_type (get_or payload 0 0) == 28) _ _
        (λ fragment.
          if_both Keeps (not (in_fragmented_unit d)) _ _
            (λ outside.
              if_both Keeps (has_bit (get_or payload 1 0) fu_header_start_bit) _ _
                (λ starts. closed d _ _ _) (λ lost. closed d _ _ _))
            (λ inside.
              if_both Keeps (has_bit (get_or payload 1 0) fu_header_start_bit) _ _
                (λ starts. closed d _ _ _) (λ goes_on. continue_fu-Keeps)))
        (λ unit. closed d _ _ _)
