-- ===== src/Operator/Resources/Workload/Script.antt =====
-- The script of the init container, line by line.
use k8s_opencode.Common.{String, ◌++◌, List, [], ◌∷◌}

abbrev concat : List String → String
concat [] = ""
concat (s ∷ ss) = s ++ concat ss

pub init_script : String
init_script = concat (
    "set -e\n" ∷ "USER_NAME=\"${WORKSPACE_USER}\"\n" ∷ "USER_ID=\"1000\"\n" ∷ "USER_GID=\"1000\"\n"
    ∷ "\n" ∷ "# Create user with provided name\n"
    ∷ "id \"$USER_NAME\" 2>/dev/null || useradd -u $USER_ID -g $USER_GID -m -d /home/$USER_NAME -s /bin/bash \"$USER_NAME\"\n"
    ∷ "\n" ∷ "# Configure sudoers for the runtime user\n"
    ∷ "echo \"$USER_NAME ALL=(ALL) NOPASSWD:ALL\" > /etc/sudoers.d/$USER_NAME\n"
    ∷ "chmod 440 /etc/sudoers.d/$USER_NAME\n"
    ∷ "# sudo refuses sudoers.d if the directory is world-writable (EmptyDir default is 0777)\n"
    ∷ "chmod 750 /etc/sudoers.d\n" ∷ "\n"
    ∷ "# Build /etc/passwd and /etc/shadow with dynamic user entry\n"
    ∷ "cp /etc/passwd /mnt/passwd/passwd\n" ∷ "cp /etc/shadow /mnt/shadow/shadow\n"
    ∷ "grep -q \"^$USER_NAME:\" /mnt/shadow/shadow || echo \"$USER_NAME:*:0:0:99999:7:::\" >> /mnt/shadow/shadow\n"
    ∷ "chmod 640 /mnt/shadow/shadow\n" ∷ "\n" ∷ "      # Fix ownership on mounted directories\n"
    ∷ "      chown -R $USER_ID:$USER_GID /home/$USER_NAME 2>/dev/null || true\n" ∷ "\n"
    ∷ "# Copy config files from ConfigMap to writable location (ConfigMap is read-only)\n"
    ∷ "if [ -f /etc/opencode-config/opencode.json ]; then\n"
    ∷ "  mkdir -p /home/$USER_NAME/.opencode 2>/dev/null || true\n"
    ∷ "  cp /etc/opencode-config/opencode.json /home/$USER_NAME/.opencode/\n" ∷ "fi\n" ∷ [])
